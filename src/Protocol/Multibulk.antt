-- ===== src/Protocol/Multibulk.antt =====
-- src/vr_client.c: `processMultibulkBuffer`, a request with counted arguments.
mod Lines
pub mod RoundTrip
pub mod Rounds
pub mod Reader
pub mod Chunks
use myownproject.Base.{
  is_empty, ℕ, zero, suc, ◌+◌, ◌-◌, ◌*◌, ◌%◌, ◌^◌, ◌≤◌, ◌<◌, ◌≡◌, arith, Bool, true, false, not,
  ◌&&◌, ◌||◌, Option, none, some, List, [], ◌∷◌, ◌++◌, ltb, leb, ◌==◌, if◌then◌else◌, length,
  get_or, take, drop,
}
use myownproject.Base.Int.{ℤ, pos, negsuc}
use myownproject.Util.{string2ll}
use myownproject.Protocol.State.{
  Bytes, inline_max_size, mbulk_big_arg, ProtocolError, too_big_inline, unbalanced_quotes,
  too_big_count, invalid_multibulk_length, too_big_bulk_count, expected_dollar, invalid_bulk_length,
  RequestType, undetermined, inline, multibulk, Client, Verdict, ok, error, panic, strchr, trim,
  set_protocol_error, reset_client,
}

-- `newline-(c->querybuf) > ((signed)sdslen(c->querybuf)-2)` for a line that ends at `end`: the length
-- is cut to a signed 32-bit number.
unfoldable pub passes_end : ℕ → ℕ → Bool
passes_end len end = let low = len % 2 ^ 32 in leb (2 ^ 31) low || ltb low end

pub passes_end_fits : (len end : ℕ) → passes_end len end ≡ false → end ≤ len
unfolding passes_end
passes_end_fits len end h = ground arith

pub passes_end_small : (len end : ℕ) → len < 2 ^ 31 → passes_end len end ≡ ltb len end
unfolding passes_end
passes_end_small len end l = (let e : len % 2 ^ 32 ≡ len = omega arith in rw e (ground arith))

-- What a part of `processMultibulkBuffer` does: go on at `pos`, leave the loop, or return.
pub data Flow : Type 0 where
  go : Client → ℕ → Flow
  leave : Client → ℕ → Flow
  return : Verdict → Client → Flow

-- The number of arguments is read.
unfoldable pub multibulk_count : Client → ℕ → Option ℤ → Flow
unfolding set_protocol_error
multibulk_count c newline none = return error (set_protocol_error c 0 invalid_multibulk_length)
multibulk_count c newline (some (negsuc n)) = return ok (trim c (newline + 2))
multibulk_count c newline (some (pos n)) =
    if ltb (1024 * 1024) n
    then return error (set_protocol_error c 0 invalid_multibulk_length)
    else if n == 0
    then return ok (trim c (newline + 2))
    else go (record c { multibulklen = n }) (newline + 2)

unfoldable pub multibulk_line : Client → Option ℕ → Flow
unfolding set_protocol_error multibulk_count
multibulk_line c none =
    if ltb inline_max_size (length c.querybuf)
    then return error (set_protocol_error c 0 too_big_count)
    else return error c
multibulk_line c (some newline) =
    if passes_end (length c.querybuf) (newline + 2)
    then return error c
    else if not (get_or c.querybuf 0 0 == b'*')
    then return panic c
    else multibulk_count c newline (string2ll (take (newline - 1) (drop 1 c.querybuf)))

-- The length of an argument is read; a big one is moved to the start of the buffer.
unfoldable pub bulk_length : Client → ℕ → ℕ → Option ℤ → Flow
unfolding set_protocol_error
bulk_length c at newline none = return error (set_protocol_error c at invalid_bulk_length)
bulk_length c at newline (some (negsuc n)) =
    return error (set_protocol_error c at invalid_bulk_length)
bulk_length c at newline (some (pos n)) =
    if ltb (512 * 1024 * 1024) n
    then return error (set_protocol_error c at invalid_bulk_length)
    else if leb mbulk_big_arg n
    then go (record (trim c (at + newline + 2)) { bulklen = some n }) 0
    else go (record c { bulklen = some n }) (at + newline + 2)

-- `newline` is counted from `at`.
unfoldable pub bulk_line : Client → ℕ → Option ℕ → Flow
unfolding set_protocol_error bulk_length
bulk_line c at none =
    if ltb inline_max_size (length c.querybuf)
    then return error (set_protocol_error c 0 too_big_bulk_count)
    else leave c at
bulk_line c at (some newline) =
    if passes_end (length c.querybuf) (at + newline + 2)
    then leave c at
    else if not (get_or c.querybuf at 0 == b'$')
    then return error (set_protocol_error c at (expected_dollar (get_or c.querybuf at 0)))
    else bulk_length c at newline (string2ll (take (newline - 1) (drop (at + 1) c.querybuf)))

-- `Read bulk length if unknown`.
unfoldable pub bulk_header : Client → ℕ → Option ℕ → Flow
unfolding bulk_line strchr
bulk_header c at (some n) = go c at
bulk_header c at none = bulk_line c at (strchr (drop at c.querybuf) b'\r')

-- `Read bulk argument`, of `n` bytes.
unfoldable pub bulk_body : Client → ℕ → ℕ → Flow
bulk_body c at n =
    if ltb (length c.querybuf - at) (n + 2)
    then leave c at
    else if at == 0 && (leb mbulk_big_arg n && length c.querybuf == n + 2)
    then go
        (record c {
          argv = c.argv ++ (take n c.querybuf ∷ []);
          querybuf = [];
          bulklen = none;
          multibulklen = c.multibulklen - 1;
        })
        0
    else go
        (record c {
          argv = c.argv ++ (take n (drop at c.querybuf) ∷ []);
          bulklen = none;
          multibulklen = c.multibulklen - 1;
        })
        (at + n + 2)

abbrev pub known_body : Client → ℕ → Option ℕ → Flow
unfolding bulk_body
known_body c at none = leave c at
known_body c at (some n) = bulk_body c at n

-- A part that follows another.
abbrev pub then_do : Flow → (Client → ℕ → Flow) → Flow
then_do (go c at) f = f c at
then_do (leave c at) f = leave c at
then_do (return v c) f = return v c

-- One round of the `while`.
unfoldable pub bulk_round : Client → ℕ → Flow
unfolding bulk_header known_body bulk_body
bulk_round c at = then_do (bulk_header c at c.bulklen) (λ d to. known_body d to d.bulklen)

-- The `while`, for the arguments that are left; each round reads one.
unfoldable pub bulk_loop : ℕ → Client → ℕ → Flow
bulk_loop zero c at = leave c at
bulk_loop (suc left) c at = then_do (bulk_round c at) (bulk_loop left)

-- The end of `processMultibulkBuffer`.
abbrev pub finish : Flow → Verdict × Client
finish (go c at) = (error, trim c at)
finish (leave c at) = (if c.multibulklen == 0 then ok else error, trim c at)
finish (return v c) = (v, c)

abbrev pub multibulk_body : Client → ℕ → Flow
unfolding bulk_loop
multibulk_body c at = bulk_loop c.multibulklen c at

-- `processMultibulkBuffer`.
unfoldable pub process_multibulk : Client → Verdict × Client
unfolding multibulk_line strchr multibulk_body
process_multibulk c =
    if c.multibulklen == 0
    then (if is_empty c.argv
        then finish (then_do (multibulk_line c (strchr c.querybuf b'\r')) multibulk_body)
        else (panic, c))
    else finish (multibulk_body c 0)
