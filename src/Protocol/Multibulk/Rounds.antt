-- ===== src/Protocol/Multibulk/Rounds.antt =====
-- What a part of `processMultibulkBuffer` (src/vr_client.c) does to the buffer and to the replies.
use myownproject.Base.{
  is_empty, ℕ, zero, suc, ◌+◌, ◌-◌, ◌*◌, ◌≤◌, ◌<◌, ◌≡◌, refl, ap, ◌∙◌, true, false, not, ◌&&◌,
  Option, none, some, [], ◌∷◌, ◌++◌, ltb, leb, arith, ◌==◌, length, get_or, take, drop, length-drop,
  Bool-cases, ◌⊎◌, inl, inr,
}
use myownproject.Base.Int.{ℤ, pos, negsuc}
use myownproject.Util.{string2ll}
use myownproject.Protocol.State.{
  Client, ProtocolError, Verdict, ok, error, panic, strchr, set_protocol_error, mbulk_big_arg,
}
use myownproject.Protocol.Multibulk.{
  passes_end, passes_end_fits, Flow, go, leave, return, multibulk_count, multibulk_line,
  bulk_length, bulk_line, bulk_header, bulk_body, bulk_round, bulk_loop, then_do, known_body,
  multibulk_body, finish, process_multibulk,
}

-- No reply and no change of the flag that closes the client.
abbrev pub IsQuiet : Client → Client → Type 0
IsQuiet c d = (d.errors ≡ c.errors) × (d.close_after_reply ≡ c.close_after_reply)

-- One error reply more, and the client is closed behind it.
abbrev pub IsFailed : Client → Verdict → Client → Type 0
IsFailed c v d =
    (v ≡ error)
    × ((e : ProtocolError) × (d.errors ≡ c.errors ++ (e ∷ [])))
    × (d.close_after_reply ≡ true)

-- The bytes from a place on.
abbrev remaining : Client → ℕ → ℕ
remaining c at = length c.querybuf - at

-- What a part may do: go on with fewer bytes, leave the loop, or fail.
abbrev Header : Client → ℕ → Flow → Type 0
Header c at (go d to) =
    IsQuiet c d × (d.multibulklen ≡ c.multibulklen) × (remaining d to ≤ remaining c at)
Header c at (leave d to) =
    IsQuiet c d × (d.multibulklen ≡ c.multibulklen) × (remaining d to ≤ remaining c at)
Header c at (return v d) = IsFailed c v d

set_protocol_error-IsFailed :
    (c : Client) (at : ℕ) (e : ProtocolError) → IsFailed c error (set_protocol_error c at e)
unfolding set_protocol_error
set_protocol_error-IsFailed c at e = (refl, (e, refl), refl)

bulk_length-Header :
    (c : Client) (at newline : ℕ) (n : Option ℤ)
    → at + newline + 2 ≤ length c.querybuf
    → Header c at (bulk_length c at newline n)
unfolding bulk_length
bulk_length-Header c at newline none fits = set_protocol_error-IsFailed c at _
bulk_length-Header c at newline (some (negsuc n)) fits = set_protocol_error-IsFailed c at _
bulk_length-Header c at newline (some (pos n)) fits =
    elim (Bool-cases (ltb (512 * 1024 * 1024) n)) [
      | inl e ↦ rw e (set_protocol_error-IsFailed c at _)
      | inr e ↦ elim (Bool-cases (leb mbulk_big_arg n)) [
        | inl f ↦
            rw (e, f) ((refl, refl), refl, omega (arith, length-drop (at + newline + 2) c.querybuf))
        | inr f ↦ rw (e, f) ((refl, refl), refl, omega arith)
      ]
    ]

bulk_line-Header : (c : Client) (at : ℕ) (newline : Option ℕ) → Header c at (bulk_line c at newline)
unfolding bulk_line
bulk_line-Header c at none = elim (Bool-cases (ltb (1024 * 64) (length c.querybuf))) [
  | inl e ↦ rw e (set_protocol_error-IsFailed c 0 _)
  | inr e ↦ rw e ((refl, refl), refl, omega arith)
]
bulk_line-Header c at (some newline) =
    elim (Bool-cases (passes_end (length c.querybuf) (at + newline + 2))) [
      | inl e ↦ rw e ((refl, refl), refl, omega arith)
      | inr e ↦ elim (Bool-cases (not (get_or c.querybuf at 0 == b'$'))) [
        | inl f ↦ rw (e, f) (set_protocol_error-IsFailed c at _)
        | inr f ↦
            rw (e, f)
              (bulk_length-Header c at newline
                (string2ll (take (newline - 1) (drop (at + 1) c.querybuf)))
                (passes_end_fits (length c.querybuf) (at + newline + 2) e))
      ]
    ]

bulk_header-Header : (c : Client) (at : ℕ) (n : Option ℕ) → Header c at (bulk_header c at n)
unfolding bulk_header
bulk_header-Header c at (some n) = ((refl, refl), refl, omega arith)
bulk_header-Header c at none = bulk_line-Header c at (strchr (drop at c.querybuf) b'\r')

-- A round reads one argument with its bytes, or leaves the counter alone.
abbrev Round : Client → ℕ → Flow → Type 0
Round c at (go d to) =
    IsQuiet c d × (d.multibulklen ≡ c.multibulklen - 1) × (remaining d to < remaining c at)
Round c at (leave d to) =
    IsQuiet c d × (d.multibulklen ≡ c.multibulklen) × (remaining d to ≤ remaining c at)
Round c at (return v d) = IsFailed c v d

bulk_body-Round : (c : Client) (at n : ℕ) → Round c at (bulk_body c at n)
unfolding bulk_body
bulk_body-Round c at n = elim (Bool-cases (ltb (length c.querybuf - at) (n + 2))) [
  | inl e ↦ rw e ((refl, refl), refl, omega arith)
  | inr e ↦ elim (Bool-cases (at == 0 && (leb mbulk_big_arg n && length c.querybuf == n + 2))) [
    | inl f ↦ rw (e, f) ((refl, refl), refl, ground arith)
    | inr f ↦ rw (e, f) ((refl, refl), refl, ground arith)
  ]
]

known_body-Round : (c : Client) (at : ℕ) (n : Option ℕ) → Round c at (known_body c at n)
unfolding known_body
known_body-Round c at none = ((refl, refl), refl, omega arith)
known_body-Round c at (some n) = bulk_body-Round c at n

Round-after :
    (c d : Client) (at to : ℕ) (f : Flow) → Header c at (go d to) → Round d to f → Round c at f
Round-after c d at to (go x y) ((e, g), k, l) ((e', g'), k', l') =
    ((e' ∙ e, g' ∙ g), omega arith, omega arith)
Round-after c d at to (leave x y) ((e, g), k, l) ((e', g'), k', l') =
    ((e' ∙ e, g' ∙ g), omega arith, omega arith)
Round-after c d at to (return v x) ((e, g), k, l) (r, (q, s), t) =
    (r, (q, s ∙ ap (λ l. l ++ (q ∷ [])) e), t)

then_body-Round :
    (c : Client) (at : ℕ) (f : Flow)
    → Header c at f
    → Round c at (then_do f (λ d to. known_body d to d.bulklen))
then_body-Round c at (go d to) h =
    Round-after c d at to (known_body d to d.bulklen) h (known_body-Round d to d.bulklen)
then_body-Round c at (leave d to) h = h
then_body-Round c at (return v d) h = h

bulk_round-Round : (c : Client) (at : ℕ) → Round c at (bulk_round c at)
unfolding bulk_round
bulk_round-Round c at =
    then_body-Round c at (bulk_header c at c.bulklen) (bulk_header-Header c at c.bulklen)

-- When `processMultibulkBuffer` returns, and how.
abbrev pub Parsed : Client → Verdict × Client → Type 0
Parsed c (ok, d) = IsQuiet c d × (d.multibulklen ≡ 0) × (length d.querybuf < length c.querybuf)
Parsed c (error, d) = (IsQuiet c d × (length d.querybuf ≤ length c.querybuf)) ⊎ IsFailed c error d
Parsed c (panic, d) =
    (c.multibulklen ≡ 0) × ((is_empty c.argv ≡ false) ⊎ ((get_or c.querybuf 0 0 == b'*') ≡ false))

-- The loop over `left` arguments.
abbrev Loop : Client → ℕ → ℕ → Flow → Type 0
Loop c at left (go d to) = ⊥
Loop c at left (leave d to) =
    IsQuiet c d
    × (remaining d to ≤ remaining c at)
    × (d.multibulklen ≡ 0 → 0 < left → remaining d to < remaining c at)
Loop c at left (return v d) = IsFailed c v d

looped :
    (c d : Client) (at to left : ℕ) (f : Flow)
    → IsQuiet c d
    → remaining d to < remaining c at
    → Loop d to left f
    → Loop c at (suc left) f
looped c d at to left (leave x y) (e, g) l ((e', g'), k, m) =
    ((e' ∙ e, g' ∙ g), omega arith, (λ z p. omega arith))
looped c d at to left (go x y) q l h = elim h [ ]
looped c d at to left (return v x) (e, g) l (r, (q, s), t) =
    (r, (q, s ∙ ap (λ l. l ++ (q ∷ [])) e), t)

then_do-Loop :
    (c : Client) (at left : ℕ) (f : Flow) (next : Client → ℕ → Flow)
    → c.multibulklen ≡ suc left
    → Round c at f
    → ((d : Client) (to : ℕ) → d.multibulklen ≡ left → Loop d to left (next d to))
    → Loop c at (suc left) (then_do f next)
then_do-Loop c at left (leave d to) next count (q, k, l) rec =
    (q, l, (λ z p. absurd (omega (arith, k, count, z))))
then_do-Loop c at left (return v d) next count h rec = h
then_do-Loop c at left (go d to) next count (q, k, l) rec =
    looped c d at to left (next d to) q l (rec d to (omega (arith, k, count)))

bulk_loop-Loop :
    (left : ℕ) (c : Client) (at : ℕ) → c.multibulklen ≡ left → Loop c at left (bulk_loop left c at)
unfolding bulk_loop
bulk_loop-Loop zero c at count = ((refl, refl), omega arith, (λ z p. absurd (omega arith)))
bulk_loop-Loop (suc left) c at count =
    then_do-Loop c at left (bulk_round c at) (bulk_loop left) count (bulk_round-Round c at)
      (bulk_loop-Loop left)

finish-Parsed :
    (c d : Client) (at left : ℕ) (f : Flow)
    → IsQuiet c d
    → remaining d at ≤ length c.querybuf
    → 0 < left
    → Loop d at left f
    → Parsed c (finish f)
finish-Parsed c d at left (go x y) q l p h = elim h [ ]
finish-Parsed c d at left (return v x) (e, g) l p (r, (q, s), t) =
    rw r (inr (refl, (q, s ∙ ap (λ l. l ++ (q ∷ [])) e), t))
finish-Parsed c d at left (leave x to) (e, g) l p ((e', g'), k, m) =
    elim (Bool-cases (x.multibulklen == 0)) [
      | inl z ↦
          (let done : x.multibulklen ≡ 0 = ground arith in
            rw z ((e' ∙ e, g' ∙ g), done, omega (arith, m done p, length-drop to x.querybuf)))
      | inr z ↦ rw z (inl ((e' ∙ e, g' ∙ g), omega (arith, length-drop to x.querybuf)))
    ]

-- What the first line leads to.
abbrev First : Client → Flow → Type 0
First c (go d to) = IsQuiet c d × (0 < d.multibulklen) × (remaining d to ≤ length c.querybuf)
First c (leave d to) = ⊥
First c (return v d) = Parsed c (v, d)

multibulk_count-First :
    (c : Client) (newline : ℕ) (n : Option ℤ)
    → c.multibulklen ≡ 0
    → newline + 2 ≤ length c.querybuf
    → First c (multibulk_count c newline n)
unfolding multibulk_count
multibulk_count-First c newline none idle fits = inr (set_protocol_error-IsFailed c 0 _)
multibulk_count-First c newline (some (negsuc n)) idle fits =
    ((refl, refl), idle, omega (arith, length-drop (newline + 2) c.querybuf))
multibulk_count-First c newline (some (pos n)) idle fits = elim (Bool-cases (ltb (1024 * 1024) n)) [
  | inl e ↦ rw e (inr (set_protocol_error-IsFailed c 0 _))
  | inr e ↦ elim (Bool-cases (n == 0)) [
    | inl z ↦ rw (e, z) ((refl, refl), idle, omega (arith, length-drop (newline + 2) c.querybuf))
    | inr z ↦ rw (e, z) ((refl, refl), ground arith, omega arith)
  ]
]

multibulk_line-First :
    (c : Client) (newline : Option ℕ) → c.multibulklen ≡ 0 → First c (multibulk_line c newline)
unfolding multibulk_line
multibulk_line-First c none idle = elim (Bool-cases (ltb (1024 * 64) (length c.querybuf))) [
  | inl e ↦ rw e (inr (set_protocol_error-IsFailed c 0 _))
  | inr e ↦ rw e (inl ((refl, refl), omega arith))
]
multibulk_line-First c (some newline) idle =
    elim (Bool-cases (passes_end (length c.querybuf) (newline + 2))) [
      | inl e ↦ rw e (inl ((refl, refl), omega arith))
      | inr e ↦ elim (Bool-cases (get_or c.querybuf 0 0 == b'*')) [
        | inl f ↦
            rw (e, f)
              (multibulk_count-First c newline (string2ll (take (newline - 1) (drop 1 c.querybuf)))
                idle (passes_end_fits (length c.querybuf) (newline + 2) e))
        | inr f ↦ rw (e, f) (idle, inr f)
      ]
    ]

then_body-Parsed :
    (c : Client) (f : Flow) → First c f → Parsed c (finish (then_do f multibulk_body))
unfolding multibulk_body bulk_loop
then_body-Parsed c (go d to) (q, p, l) =
    finish-Parsed c d to d.multibulklen (multibulk_body d to) q l p
      (bulk_loop-Loop d.multibulklen d to refl)
then_body-Parsed c (leave d to) h = elim h [ ]
then_body-Parsed c (return v d) h = h

-- Every call of `processMultibulkBuffer` either succeeds, with the request complete, bytes taken
-- from the buffer and no reply; or waits, with no reply; or fails with exactly one error reply and
-- the flag that closes the client; or ends the process, which takes a client between requests with
-- arguments left over or a buffer that starts with another byte than `*`.
pub process_multibulk-Parsed : (c : Client) → Parsed c (process_multibulk c)
unfolding process_multibulk multibulk_body bulk_loop
process_multibulk-Parsed c = elim (Bool-cases (c.multibulklen == 0)) [
  | inl z ↦ elim (Bool-cases (is_empty c.argv)) [
    | inl e ↦
        rw (z, e)
          (then_body-Parsed c (multibulk_line c (strchr c.querybuf b'\r'))
            (multibulk_line-First c (strchr c.querybuf b'\r') (ground arith)))
    | inr e ↦ rw (z, e) (ground arith, inl e)
  ]
  | inr z ↦ rw z (
      finish-Parsed c c 0 c.multibulklen (multibulk_body c 0) (refl, refl) (omega arith)
        (ground arith) (bulk_loop-Loop c.multibulklen c 0 refl))
]
