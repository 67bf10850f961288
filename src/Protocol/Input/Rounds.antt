-- ===== src/Protocol/Input/Rounds.antt =====
-- `processInputBuffer` (src/vr_client.c) ends: each of its rounds takes bytes from the buffer.
use myownproject.Base.{
  is_empty, ℕ, zero, suc, ◌+◌, ◌-◌, ◌*◌, ◌≤◌, ◌<◌, ◌≡◌, refl, sym, ap, true, ◌||◌, Option, none,
  some, List, [], ◌∷◌, ltb, arith, if◌then◌else◌, length, take, length-drop, Bool-cases,
  Option-cases, inl, inr,
}
use myownproject.Protocol.State.{
  Bytes, Client, RequestType, undetermined, inline, multibulk, Verdict, ok, error, panic, strchr,
  reset_client,
}
use myownproject.Protocol.Inline.{inline_args, inline_line, line_length, process_inline}
use myownproject.Protocol.Multibulk.{process_multibulk}
use myownproject.Protocol.Multibulk.Rounds.{Parsed, process_multibulk-Parsed}
use myownproject.Protocol.Multibulk.Chunks.{strchr-lt}
use myownproject.Protocol.Input.{
  Executed, determine, parse_by, parse, may_parse, after_command, after_parse, note, input_loop,
  process_input,
}

-- A request that is complete has taken bytes.
abbrev Shrinks : Client → Verdict × Client → Type 0
Shrinks c (ok, d) = length d.querybuf < length c.querybuf
Shrinks c (error, d) = Unit {0}
Shrinks c (panic, d) = Unit {0}

inline_args-Shrinks :
    (c : Client) (n : ℕ) (args : Option (List Bytes))
    → 0 < length c.querybuf
    → Shrinks c (inline_args c n args)
unfolding inline_args
inline_args-Shrinks c n none full = tt
inline_args-Shrinks c n (some args) full = omega (arith, length-drop (n + 2) c.querybuf)

process_inline-Shrinks :
    (split : Bytes → Option (List Bytes)) (c : Client) → Shrinks c (process_inline split c)
unfolding process_inline inline_line
process_inline-Shrinks split c = elim (Option-cases (strchr c.querybuf b'\n')) [
  | inl e ↦ elim (Bool-cases (ltb (1024 * 64) (length c.querybuf))) [
    | inl f ↦ rw (e, f) tt
    | inr f ↦ rw (e, f) tt
  ]
  | inr (newline, e) ↦
      (let l = strchr-lt c.querybuf b'\n' newline e in
        rw e (
          inline_args-Shrinks c (line_length c.querybuf newline)
            (split (take (line_length c.querybuf newline) c.querybuf)) (omega arith)))
]

Parsed→Shrinks : (c : Client) (r : Verdict × Client) → Parsed c r → Shrinks c r
Parsed→Shrinks c (ok, d) (q, z, l) = l
Parsed→Shrinks c (error, d) h = tt
Parsed→Shrinks c (panic, d) h = tt

-- A dispatcher that puts nothing into the buffer.
abbrev pub PutsNothing : (Client → Executed) → Type 0
PutsNothing process_command =
    (c : Client) → length (process_command c).client.querybuf ≤ length c.querybuf

pub querybuf-reset_client : (c : Client) → (reset_client c).querybuf ≡ c.querybuf
unfolding reset_client
querybuf-reset_client c = ground arith

module _ (split : Bytes → Option (List Bytes)) (process_command : Client → Executed) where
  parse_by-Shrinks : (t : RequestType) (c : Client) → Shrinks c (parse_by split process_command t c)
  unfolding parse_by
  parse_by-Shrinks undetermined c = tt
  parse_by-Shrinks inline c = process_inline-Shrinks split c
  parse_by-Shrinks multibulk c = Parsed→Shrinks c (process_multibulk c) (process_multibulk-Parsed c)

  abbrev Rest : Type 0
  Rest = Client → List (List Bytes) × Client

  -- Rounds that agree on shorter buffers agree behind a command, and behind a request.
  after_command-agree :
      (puts : PutsNothing process_command) (c : Client) (n : ℕ) (next next' : Rest)
      → length c.querybuf ≤ n
      → ((d : Client) → length d.querybuf ≤ n → next d ≡ next' d)
      → after_command split process_command (process_command c) next
        ≡ after_command split process_command (process_command c) next'
  unfolding after_command
  after_command-agree puts c n next next' short same =
      let r = process_command c in
      elim (Bool-cases r.executed) [
        | inl e ↦ elim (Bool-cases (r.freed || (reset_client r.client).jump)) [
          | inl f ↦ rw (e, f) refl
          | inr f ↦
              rw (e, f)
                (same (reset_client r.client)
                  (let p = puts c in omega (arith, ap length (querybuf-reset_client r.client))))
        ]
        | inr e ↦ elim (Bool-cases (r.freed || r.client.jump)) [
          | inl f ↦ rw (e, f) refl
          | inr f ↦ rw (e, f) (same r.client (let p = puts c in omega arith))
        ]
      ]

  after_parse-agree :
      (puts : PutsNothing process_command) (c : Client) (r : Verdict × Client) (n : ℕ)
      (next next' : Rest)
      → length c.querybuf ≤ suc n
      → Shrinks c r
      → ((d : Client) → length d.querybuf ≤ n → next d ≡ next' d)
      → after_parse split process_command r next ≡ after_parse split process_command r next'
  unfolding after_parse
  after_parse-agree puts c (error, d) n next next' short less same = refl
  after_parse-agree puts c (panic, d) n next next' short less same = refl
  after_parse-agree puts c (ok, d) n next next' short less same =
      elim (Bool-cases (is_empty d.argv)) [
        | inl e ↦ rw e (same (reset_client d) (omega (arith, ap length (querybuf-reset_client d))))
        | inr e ↦ rw e (
            ap (note split process_command d.argv)
              (after_command-agree puts d n next next' (omega arith) same))
      ]

  -- An empty buffer ends the loop.
  pub input_loop-nil :
      (fuel : ℕ) (c : Client)
      → is_empty c.querybuf ≡ true
      → input_loop split process_command fuel c ≡ ([], c)
  unfolding input_loop
  input_loop-nil zero c e = refl
  input_loop-nil (suc fuel) c e = rw e refl

  is_empty-length : (xs : Bytes) → length xs ≤ 0 → is_empty xs ≡ true
  is_empty-length [] l = refl
  is_empty-length (x ∷ xs) l = absurd (omega arith)

  input_loop-enough :
      (puts : PutsNothing process_command) (fuel fuel' : ℕ) (c : Client)
      → length c.querybuf ≤ fuel
      → length c.querybuf ≤ fuel'
      → input_loop split process_command fuel c ≡ input_loop split process_command fuel' c
  unfolding input_loop determine
  input_loop-enough puts zero fuel' c l l' =
      sym (input_loop-nil fuel' c (is_empty-length c.querybuf l))
  input_loop-enough puts (suc fuel) zero c l l' =
      input_loop-nil (suc fuel) c (is_empty-length c.querybuf l')
  input_loop-enough puts (suc fuel) (suc fuel') c l l' =
      ap (λ r. if may_parse split process_command c then r else ([], c))
        (after_parse-agree puts (determine c) (parse split process_command (determine c))
          (length c.querybuf - 1) (input_loop split process_command fuel)
          (input_loop split process_command fuel') (omega arith)
          (parse_by-Shrinks (determine c).reqtype (determine c))
          (λ d k. input_loop-enough puts fuel fuel' d (omega arith) (omega arith)))

  -- Where the dispatcher puts nothing into the buffer, `processInputBuffer` has ended after as many
  -- rounds as the buffer has bytes: no further round changes its result.
  pub process_input-enough :
      PutsNothing process_command
      → (fuel : ℕ) (c : Client) → length c.querybuf ≤ fuel
      → input_loop split process_command fuel c ≡ process_input split process_command c
  unfolding process_input
  process_input-enough puts fuel c l =
      input_loop-enough puts fuel (length c.querybuf) c l (omega arith)
