-- ===== src/Protocol/Inline/OneLine.antt =====
-- `processInlineBuffer` (src/vr_client.c) on a buffer that starts with a line.
use myownproject.Base.{
  ℕ, suc, ◌+◌, ◌-◌, ◌<◌, ◌≡◌, ltb, true, refl, sym, ap, ◌∙◌, false, ◌&&◌, Option, none, some, List,
  [], ◌∷◌, ◌++◌, arith, ◌==◌, if◌then◌else◌, length, get_or, take, drop, length-append, take-append,
  drop-add_append, get_or-append, get_or-append_length, Bool-cases, inl, inr,
}
use mathlib.Core.List.{append_assoc}
use myownproject.Protocol.State.{
  Bytes, Client, Verdict, ok, error, strchr, unbalanced_quotes, set_protocol_error,
}
use myownproject.Protocol.Inline.{
  keep_filled, inline_args, line_length, inline_line, process_inline,
}

-- A text without a line feed and without a NUL byte.
abbrev pub IsLine : Bytes → Type 0
IsLine [] = Unit {0}
IsLine (b ∷ bs) = ((b == b'\n') ≡ false) × (0 < b) × IsLine bs

strchr-IsLine :
    (line rest : Bytes) → IsLine line → strchr (line ++ (b'\n' ∷ rest)) b'\n' ≡ some (length line)
unfolding strchr
strchr-IsLine [] rest p = refl
strchr-IsLine (x ∷ xs) rest (e, l, p) =
    let f : (x == 0) ≡ false = ground arith in rw (e, f, strchr-IsLine xs rest p) refl

append-IsLine : (xs ys : Bytes) → IsLine xs → IsLine ys → IsLine (xs ++ ys)
append-IsLine [] ys p q = q
append-IsLine (x ∷ xs) ys (e, l, p) q = (e, l, append-IsLine xs ys p q)

-- The arguments of one byte or more, in order.
unfoldable pub without_empty : List Bytes → List Bytes
without_empty [] = []
without_empty (a ∷ args) = if ltb 0 (length a) then a ∷ without_empty args else without_empty args

keep_filled-without_empty : (args : List Bytes) → keep_filled args ≡ without_empty args
unfolding without_empty
keep_filled-without_empty [] = refl
keep_filled-without_empty ([] ∷ args) = keep_filled-without_empty args
keep_filled-without_empty ((b ∷ bs) ∷ args) =
    let filled : ltb 0 (suc (length bs)) ≡ true = ground arith in
    rw filled (ap (λ l. (b ∷ bs) ∷ l) (keep_filled-without_empty args))

-- The client behind a line of `n` bytes that splits into `args`.
abbrev pub behind : Client → ℕ → List Bytes → Bytes → Client
behind c n args rest = record c {
  querybuf = rest;
  argv = without_empty args;
  repl_ack_time = if n == 0 && c.slave then c.unixtime else c.repl_ack_time;
}

-- What is done with the split of a line of `n` bytes, with `rest` behind it.
abbrev pub line_done : Client → ℕ → Bytes → Option (List Bytes) → Verdict × Client
line_done c n rest none =
    (error, record c { errors = c.errors ++ (unbalanced_quotes ∷ []); close_after_reply = true })
line_done c n rest (some args) = (ok, behind c n args rest)

inline_args-line_done :
    (c : Client) (n : ℕ) (rest : Bytes) (args : Option (List Bytes))
    → drop (n + 2) c.querybuf ≡ rest
    → inline_args c n args ≡ line_done c n rest args
unfolding inline_args set_protocol_error
inline_args-line_done c n rest none e = refl
inline_args-line_done c n rest (some args) e =
    ap (λ l. (ok, record (behind c n args (drop (n + 2) c.querybuf)) { argv = l }))
      (keep_filled-without_empty args)
    ∙ ap (λ b. (ok, behind c n args b)) e

-- A line that ends in a carriage return and a line feed is split without them; its arguments of one
-- byte or more, in order, are those of the request, and what follows it stays in the buffer. A line
-- that does not split fails: it adds the reply on unbalanced quotes to the errors, marks the client
-- for closing, and changes nothing else.
pub process_inline-crlf :
    (split : Bytes → Option (List Bytes)) (c : Client) (line rest : Bytes)
    → IsLine line
    → c.querybuf ≡ line ++ (b'\r' ∷ b'\n' ∷ rest)
    → process_inline split c ≡ line_done c (length line) rest (split line)
unfolding process_inline inline_line
process_inline-crlf split c line rest clean here =
    let whole = line ++ (b'\r' ∷ []) in
    let joined : c.querybuf ≡ whole ++ (b'\n' ∷ rest) =
      here ∙ sym (append_assoc line (b'\r' ∷ []) (b'\n' ∷ rest)) in
    let newline : length whole ≡ suc (length line) =
      omega (arith, length-append line (b'\r' ∷ [])) in
    let found : strchr c.querybuf b'\n' ≡ some (suc (length line)) =
      ap (λ b. strchr b b'\n') joined
      ∙ strchr-IsLine whole rest (append-IsLine line (b'\r' ∷ []) clean (refl, omega arith, tt))
      ∙ ap some newline in
    let back : suc (length line) - 1 ≡ length line = omega arith in
    let cr : get_or c.querybuf (length line) 0 ≡ b'\r' =
      ap (λ b. get_or b (length line) 0) here ∙ get_or-append_length line b'\r' (b'\n' ∷ rest) 0 in
    let later : (suc (length line) == 0) ≡ false = ground arith in
    let shorter : line_length c.querybuf (suc (length line)) ≡ length line =
      rw (later, back, cr) refl in
    rw (found, shorter)
      (inline_args-line_done c (length line) rest (split (take (length line) c.querybuf))
          (ap (drop (length line + 2)) here ∙ drop-add_append line (b'\r' ∷ b'\n' ∷ rest) 2)
        ∙ ap (λ l. line_done c (length line) rest (split l))
            (ap (take (length line)) here ∙ take-append line (b'\r' ∷ b'\n' ∷ rest)))

-- A line that ends in a line feed alone is split too, and the byte behind the line feed is dropped
-- with it.
pub process_inline-lf :
    (split : Bytes → Option (List Bytes)) (c : Client) (line rest : Bytes) (lost : ℕ)
    → IsLine line
    → (get_or line (length line - 1) 0 == b'\r') ≡ false
    → c.querybuf ≡ line ++ (b'\n' ∷ lost ∷ rest)
    → process_inline split c ≡ line_done c (length line) rest (split line)
unfolding process_inline inline_line
process_inline-lf split c line rest lost clean no_cr here =
    let found : strchr c.querybuf b'\n' ≡ some (length line) =
      ap (λ b. strchr b b'\n') here ∙ strchr-IsLine line (lost ∷ rest) clean in
    let same : line_length c.querybuf (length line) ≡ length line =
      elim (Bool-cases (length line == 0)) [
        | inl z ↦ rw z refl
        | inr z ↦
            rw
              (
                z,
                ap (λ b. get_or b (length line - 1) 0) here
                    ∙ get_or-append line (b'\n' ∷ lost ∷ rest) (length line - 1) 0 (ground arith),
                no_cr,
              )
              refl
      ] in
    rw (found, same)
      (inline_args-line_done c (length line) rest (split (take (length line) c.querybuf))
          (ap (drop (length line + 2)) here ∙ drop-add_append line (b'\n' ∷ lost ∷ rest) 2)
        ∙ ap (λ l. line_done c (length line) rest (split l))
            (ap (take (length line)) here ∙ take-append line (b'\n' ∷ lost ∷ rest)))
