-- ===== src/Protocol/State.antt =====
-- src/vr_client.c and vr_client.h: what the request parsers read and write of a client.
use myownproject.Base.{
  ℕ, suc, ◌*◌, Bool, true, false, Option, none, some, List, [], ◌∷◌, ◌++◌, ◌==◌, if◌then◌else◌,
  drop,
}

abbrev pub Bytes : Type 0
Bytes = List ℕ

abbrev pub inline_max_size : ℕ
inline_max_size = 1024 * 64

abbrev pub mbulk_big_arg : ℕ
mbulk_big_arg = 1024 * 32

-- The error replies of the parsers.
pub data ProtocolError : Type 0 where
  too_big_inline : ProtocolError
  unbalanced_quotes : ProtocolError
  too_big_count : ProtocolError
  invalid_multibulk_length : ProtocolError
  too_big_bulk_count : ProtocolError
  expected_dollar : ℕ → ProtocolError
  invalid_bulk_length : ProtocolError

pub data RequestType : Type 0 where
  undetermined : RequestType
  inline : RequestType
  multibulk : RequestType

-- The fields of `client` that the parsers use; `paused` and `unixtime` are those of its event loop.
pub record Client : Type 0 where
  pub querybuf : Bytes
  pub argv : List Bytes
  pub reqtype : RequestType
  pub multibulklen : ℕ
  pub bulklen : Option ℕ
  pub errors : List ProtocolError
  pub close_after_reply : Bool
  pub slave : Bool
  pub blocked : Bool
  pub jump : Bool
  pub reply_skip : Bool
  pub reply_skip_next : Bool
  pub paused : Bool
  pub unixtime : ℕ
  pub repl_ack_time : ℕ

-- VR_OK, VR_ERROR, and the end of the process by a failed assertion.
pub data Verdict : Type 0 where
  ok : Verdict
  error : Verdict
  panic : Verdict

abbrev pub next_index : Option ℕ → Option ℕ
next_index none = none
next_index (some i) = some (suc i)

-- `strchr`: a NUL byte ends the search.
unfoldable pub strchr : Bytes → ℕ → Option ℕ
strchr [] c = none
strchr (b ∷ bs) c = if b == c then some 0 else if b == 0 then none else next_index (strchr bs c)

-- `sdsrange(querybuf,pos,-1)`.
abbrev pub trim : Client → ℕ → Client
trim c at = record c { querybuf = drop at c.querybuf }

-- `addReplyError` and `setProtocolError`.
unfoldable pub set_protocol_error : Client → ℕ → ProtocolError → Client
set_protocol_error c at e = record c {
  querybuf = drop at c.querybuf;
  errors = c.errors ++ (e ∷ []);
  close_after_reply = true;
}

-- `resetClient`.
unfoldable pub reset_client : Client → Client
reset_client c = if c.jump then c else record c {
  argv = [];
  reqtype = undetermined;
  multibulklen = 0;
  bulklen = none;
  reply_skip = c.reply_skip_next;
  reply_skip_next = false;
}
