-- ===== src/Protocol/Inline.antt =====
-- src/vr_client.c: `processInlineBuffer`, a request in one line.
pub mod OneLine
use myownproject.Base.{
  ℕ, ◌+◌, ◌-◌, not, ◌&&◌, Option, none, some, List, [], ◌∷◌, ltb, ◌==◌, if◌then◌else◌, length,
  get_or, take, drop,
}
use myownproject.Protocol.State.{
  Bytes, inline_max_size, too_big_inline, unbalanced_quotes, Client, Verdict, ok, error, strchr,
  set_protocol_error,
}

-- The arguments that are kept: those with bytes.
abbrev pub keep_filled : List Bytes → List Bytes
keep_filled [] = []
keep_filled ([] ∷ args) = keep_filled args
keep_filled ((b ∷ bs) ∷ args) = (b ∷ bs) ∷ keep_filled args

-- `processInlineBuffer` behind the split of its line of `querylen` bytes.
unfoldable pub inline_args : Client → ℕ → Option (List Bytes) → Verdict × Client
unfolding set_protocol_error
inline_args c querylen none = (error, set_protocol_error c 0 unbalanced_quotes)
inline_args c querylen (some args) = (
  ok,
  record c {
    querybuf = drop (querylen + 2) c.querybuf;
    argv = keep_filled args;
    repl_ack_time = if querylen == 0 && c.slave then c.unixtime else c.repl_ack_time;
  },
)

-- The length of the line without its end.
abbrev pub line_length : Bytes → ℕ → ℕ
line_length buf newline =
    if not (newline == 0) && get_or buf (newline - 1) 0 == b'\r' then newline - 1 else newline

-- `processInlineBuffer`, from the index of the newline; `split` is sdssplitargs.
unfoldable pub inline_line : (Bytes → Option (List Bytes)) → Client → Option ℕ → Verdict × Client
unfolding inline_args set_protocol_error
inline_line split c none =
    if ltb inline_max_size (length c.querybuf)
    then (error, set_protocol_error c 0 too_big_inline)
    else (error, c)
inline_line split c (some newline) =
    inline_args c (line_length c.querybuf newline)
      (split (take (line_length c.querybuf newline) c.querybuf))

unfoldable pub process_inline : (Bytes → Option (List Bytes)) → Client → Verdict × Client
unfolding inline_line strchr
process_inline split c = inline_line split c (strchr c.querybuf b'\n')
