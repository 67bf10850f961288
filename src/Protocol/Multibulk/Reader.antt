-- ===== src/Protocol/Multibulk/Reader.antt =====
-- A plain reader of requests, which always looks at the start of its buffer, and the proof that
-- `processMultibulkBuffer` (src/vr_client.c) is that reader: its position in the buffer, its
-- trimming and its treatment of big arguments make no difference.
use myownproject.Base.{
  is_empty, ℕ, zero, suc, ◌+◌, ◌-◌, ◌*◌, ◌≤◌, ◌≡◌, refl, sym, ap, ◌∙◌, true, false, not, ◌&&◌,
  Option, none, some, List, [], ◌∷◌, ◌++◌, ltb, leb, arith, ◌==◌, if◌then◌else◌, length, get_or,
  take, drop, length-drop, drop-drop, drop_all, get_or-drop, Bool-cases, inl, inr,
}
use myownproject.Base.Int.{ℤ, pos, negsuc}
use myownproject.Util.{string2ll}
use myownproject.Protocol.State.{
  Bytes, Client, Verdict, ok, error, panic, strchr, trim, set_protocol_error, mbulk_big_arg,
  inline_max_size, expected_dollar, invalid_bulk_length, invalid_multibulk_length,
}
use myownproject.Protocol.Multibulk.{
  passes_end_small, Flow, leave, bulk_length, bulk_line, bulk_header, bulk_body, bulk_round,
  bulk_loop, then_do, known_body, multibulk_body, finish, multibulk_count, multibulk_line,
  process_multibulk,
}

abbrev pub Answer : Type 0
Answer = Verdict × Client

-- The argument of `n` bytes; `next` reads those that follow.
unfoldable pub read_body : ℕ → Client → (Client → Answer) → Answer
read_body n c next =
    if ltb (length c.querybuf) (n + 2)
    then (error, c)
    else next (record c {
      argv = c.argv ++ (take n c.querybuf ∷ []);
      querybuf = drop (n + 2) c.querybuf;
      bulklen = none;
      multibulklen = c.multibulklen - 1;
    })

unfoldable pub read_length : Client → ℕ → Option ℤ → (Client → Answer) → Answer
unfolding set_protocol_error
read_length c newline none next = (error, set_protocol_error c 0 invalid_bulk_length)
read_length c newline (some (negsuc n)) next = (error, set_protocol_error c 0 invalid_bulk_length)
read_length c newline (some (pos n)) next =
    if ltb (512 * 1024 * 1024) n
    then (error, set_protocol_error c 0 invalid_bulk_length)
    else read_body n (record (trim c (newline + 2)) { bulklen = some n }) next

unfoldable pub read_line : Client → Option ℕ → (Client → Answer) → Answer
unfolding set_protocol_error
read_line c none next = (error, c)
read_line c (some newline) next =
    if ltb (length c.querybuf) (newline + 2)
    then (error, c)
    else if not (get_or c.querybuf 0 0 == b'$')
    then (error, set_protocol_error c 0 (expected_dollar (get_or c.querybuf 0 0)))
    else read_length c newline (string2ll (take (newline - 1) (drop 1 c.querybuf))) next

unfoldable pub read_argument : Client → Option ℕ → (Client → Answer) → Answer
read_argument c none next = read_line c (strchr c.querybuf b'\r') next
read_argument c (some n) next = read_body n c next

unfoldable pub read_arguments : ℕ → Client → Answer
read_arguments zero c = (if c.multibulklen == 0 then ok else error, c)
read_arguments (suc left) c = read_argument c c.bulklen (read_arguments left)

-- The rounds that follow, for `left` arguments, agree with a reader.
abbrev Agree : ℕ → (Client → ℕ → Flow) → (Client → Answer) → Type 0
Agree left next reader =
    (d : Client) (to : ℕ)
    → d.multibulklen ≡ left
    → to ≤ length d.querybuf
    → length d.querybuf ≤ inline_max_size
    → finish (next d to) ≡ reader (trim d to)

-- A client that reads arguments, with a place inside its buffer.
record Reads (c : Client) (at left : ℕ) : Type 0 where
  count : c.multibulklen ≡ suc left
  inside : at ≤ length c.querybuf
  small : length c.querybuf ≤ inline_max_size

module _ (left : ℕ) (next : Client → ℕ → Flow) (reader : Client → Answer)
    (agree : Agree left next reader) where
  waits : (c : Client) (at : ℕ) → Reads c at left → finish (leave c at) ≡ (error, trim c at)
  waits c at r =
      let more : (c.multibulklen == 0) ≡ false = (let e = r.count in ground arith) in rw more refl

  same_next :
      (c : Client) {args args' : List Bytes} {count : ℕ} (buf : Bytes) {buf' : Bytes} (at : ℕ)
      → args ≡ args'
      → count ≡ left
      → at ≤ length buf
      → length buf ≤ inline_max_size
      → drop at buf ≡ buf'
      → finish
          (next (record c { argv = args; multibulklen = count; bulklen = none; querybuf = buf }) at)
        ≡ reader (record c { argv = args'; multibulklen = count; bulklen = none; querybuf = buf' })
  same_next c {args} {count} buf at a e inside small b =
      agree (record c { argv = args; multibulklen = count; bulklen = none; querybuf = buf }) at e
        inside small
      ∙ rw (a, b) refl

  bulk_body-read_body :
      (c : Client) (at n : ℕ)
      → Reads c at left
      → finish (then_do (bulk_body c at n) next) ≡ read_body n (trim c at) reader
  unfolding bulk_body read_body
  bulk_body-read_body c at n r =
      let size = length-drop at c.querybuf in
      let fewer : c.multibulklen - 1 ≡ left = omega (arith, r.count) in
      let rest = drop-drop (n + 2) at c.querybuf in
      elim (Bool-cases (ltb (length c.querybuf - at) (n + 2))) [
        | inl e ↦ rw (size, e) (waits c at r)
        | inr e ↦
            elim (Bool-cases (at == 0 && (leb mbulk_big_arg n && length c.querybuf == n + 2))) [
              | inl f ↦
                  (let start : at ≡ 0 = ground arith in
                    let whole : length c.querybuf ≤ at + (n + 2) = ground arith in
                    rw (size, e, f)
                      (same_next c [] 0
                        (ap (λ t. c.argv ++ (take n (drop t c.querybuf) ∷ [])) (sym start)) fewer
                        (omega arith) (omega arith)
                        (sym (rest ∙ drop_all (at + (n + 2)) c.querybuf whole))))
              | inr f ↦
                  (let place : at + n + 2 ≡ at + (n + 2) = omega arith in
                    let fits : n + 2 ≤ length c.querybuf - at = ground arith in
                    rw (size, e, f)
                      (same_next c c.querybuf (at + n + 2) refl fewer
                        (let i = r.inside in omega arith) r.small
                        (ap (λ t. drop t c.querybuf) place ∙ sym rest)))
            ]
      ]

  -- A part that leads to the bytes of an argument.
  abbrev read_on : Flow → Answer
  unfolding known_body bulk_body
  read_on f = finish (then_do (then_do f (λ d to. known_body d to d.bulklen)) next)

  -- The body behind a header that moved to `to`.
  body_after :
      (c : Client) (buf rest : Bytes) (n to : ℕ)
      → c.multibulklen ≡ suc left
      → to ≤ length buf
      → length buf ≤ inline_max_size
      → drop to buf ≡ rest
      → finish (then_do (bulk_body (record c { bulklen = some n; querybuf = buf }) to n) next)
        ≡ read_body n (record c { bulklen = some n; querybuf = rest }) reader
  body_after c buf rest n to count inside small e =
      bulk_body-read_body (record c { bulklen = some n; querybuf = buf }) to n
        (record { count = count; inside = inside; small = small })
      ∙ ap (λ b. read_body n (record c { bulklen = some n; querybuf = b }) reader) e

  bulk_length-read_length :
      (c : Client) (at newline : ℕ) (n : Option ℤ)
      → Reads c at left
      → at + newline + 2 ≤ length c.querybuf
      → read_on (bulk_length c at newline n) ≡ read_length (trim c at) newline n reader
  unfolding bulk_length read_length read_on set_protocol_error known_body
  bulk_length-read_length c at newline none r fits = refl
  bulk_length-read_length c at newline (some (negsuc n)) r fits = refl
  bulk_length-read_length c at newline (some (pos n)) r fits =
      let place : at + newline + 2 ≡ at + (newline + 2) = omega arith in
      let moved : drop (at + newline + 2) c.querybuf ≡ drop (newline + 2) (drop at c.querybuf) =
        ap (λ t. drop t c.querybuf) place ∙ sym (drop-drop (newline + 2) at c.querybuf) in
      elim (Bool-cases (ltb (512 * 1024 * 1024) n)) [
        | inl e ↦ rw e refl
        | inr e ↦ elim (Bool-cases (leb mbulk_big_arg n)) [
          | inl f ↦
              rw (e, f)
                (body_after c (drop (at + newline + 2) c.querybuf)
                  (drop (newline + 2) (drop at c.querybuf)) n 0 r.count (omega arith)
                  (let s = r.small in omega (arith, length-drop (at + newline + 2) c.querybuf))
                  moved)
          | inr f ↦
              rw (e, f)
                (body_after c c.querybuf (drop (newline + 2) (drop at c.querybuf)) n
                  (at + newline + 2) r.count fits r.small moved)
        ]
      ]

  bulk_line-read_line :
      (c : Client) (at : ℕ) (newline : Option ℕ)
      → Reads c at left
      → read_on (bulk_line c at newline) ≡ read_line (trim c at) newline reader
  unfolding bulk_line read_line read_on set_protocol_error
  bulk_line-read_line c at none r =
      let legal : ltb (1024 * 64) (length c.querybuf) ≡ false = (let s = r.small in ground arith) in
      rw legal (waits c at r)
  bulk_line-read_line c at (some newline) r =
      let size = length-drop at c.querybuf in
      let here : get_or (drop at c.querybuf) 0 0 ≡ get_or c.querybuf at 0 =
        get_or-drop at c.querybuf 0 0 ∙ ap (λ t. get_or c.querybuf t 0) (omega arith) in
      let digits : drop 1 (drop at c.querybuf) ≡ drop (at + 1) c.querybuf =
        drop-drop 1 at c.querybuf in
      rw (passes_end_small (length c.querybuf) (at + newline + 2) (let s = r.small in omega arith))
        (elim (Bool-cases (ltb (length c.querybuf) (at + newline + 2))) [
          | inl e ↦
              (let same : ltb (length (drop at c.querybuf)) (newline + 2) ≡ true =
                  (let i = r.inside in ground arith) in
                rw (e, same) (waits c at r))
          | inr e ↦
              (let same : ltb (length (drop at c.querybuf)) (newline + 2) ≡ false = ground arith in
                elim (Bool-cases (get_or c.querybuf at 0 == b'$')) [
                  | inl f ↦
                      rw (e, same, here, digits, f)
                        (bulk_length-read_length c at newline
                          (string2ll (take (newline - 1) (drop (at + 1) c.querybuf))) r
                          (ground arith))
                  | inr f ↦ rw (e, same, here, f) refl
                ])
        ])

  by_bulklen :
      (c : Client) (at : ℕ) (n : Option ℕ)
      → Reads c at left
      → c.bulklen ≡ n
      → read_on (bulk_header c at n) ≡ read_argument (trim c at) n reader
  unfolding bulk_header read_argument read_on known_body
  by_bulklen c at none r e = bulk_line-read_line c at (strchr (drop at c.querybuf) b'\r') r
  by_bulklen c at (some n) r e =
      ap (λ m. finish (then_do (known_body c at m) next)) e ∙ bulk_body-read_body c at n r

  bulk_round-read_argument :
      (c : Client) (at : ℕ)
      → Reads c at left
      → finish (then_do (bulk_round c at) next) ≡ read_argument (trim c at) c.bulklen reader
  unfolding bulk_round read_on
  bulk_round-read_argument c at r = by_bulklen c at c.bulklen r refl

bulk_loop-read_arguments :
    (left : ℕ) (c : Client) (at : ℕ)
    → c.multibulklen ≡ left
    → at ≤ length c.querybuf
    → length c.querybuf ≤ inline_max_size
    → finish (bulk_loop left c at) ≡ read_arguments left (trim c at)
unfolding bulk_loop read_arguments
bulk_loop-read_arguments zero c at count inside small = refl
bulk_loop-read_arguments (suc left) c at count inside small =
    bulk_round-read_argument left (bulk_loop left) (read_arguments left)
      (bulk_loop-read_arguments left) c at
      (record { count = count; inside = inside; small = small })

unfoldable pub read_number : Client → ℕ → Option ℤ → Answer
unfolding set_protocol_error read_arguments
read_number c newline none = (error, set_protocol_error c 0 invalid_multibulk_length)
read_number c newline (some (negsuc n)) = (ok, trim c (newline + 2))
read_number c newline (some (pos n)) =
    if ltb (1024 * 1024) n
    then (error, set_protocol_error c 0 invalid_multibulk_length)
    else if n == 0
    then (ok, trim c (newline + 2))
    else read_arguments n (record (trim c (newline + 2)) { multibulklen = n })

unfoldable pub read_count : Client → Option ℕ → Answer
unfolding read_number
read_count c none = (error, c)
read_count c (some newline) =
    if ltb (length c.querybuf) (newline + 2)
    then (error, c)
    else if not (get_or c.querybuf 0 0 == b'*')
    then (panic, c)
    else read_number c newline (string2ll (take (newline - 1) (drop 1 c.querybuf)))

-- The plain reader.
unfoldable pub read_request : Client → Answer
unfolding read_count read_arguments
read_request c =
    if c.multibulklen == 0
    then (if is_empty c.argv then read_count c (strchr c.querybuf b'\r') else (panic, c))
    else read_arguments c.multibulklen c

multibulk_count-read_number :
    (c : Client) (newline : ℕ) (n : Option ℤ)
    → newline + 2 ≤ length c.querybuf
    → length c.querybuf ≤ inline_max_size
    → finish (then_do (multibulk_count c newline n) multibulk_body) ≡ read_number c newline n
unfolding multibulk_count multibulk_body read_number
multibulk_count-read_number c newline none fits small = refl
multibulk_count-read_number c newline (some (negsuc n)) fits small = refl
multibulk_count-read_number c newline (some (pos n)) fits small =
    elim (Bool-cases (ltb (1024 * 1024) n)) [
      | inl e ↦ rw e refl
      | inr e ↦ elim (Bool-cases (n == 0)) [
        | inl z ↦ rw (e, z) refl
        | inr z ↦
            rw (e, z)
              (bulk_loop-read_arguments n (record c { multibulklen = n }) (newline + 2) refl fits
                small)
      ]
    ]

multibulk_line-read_count :
    (c : Client) (newline : Option ℕ)
    → length c.querybuf ≤ inline_max_size
    → finish (then_do (multibulk_line c newline) multibulk_body) ≡ read_count c newline
unfolding multibulk_line read_count
multibulk_line-read_count c none small =
    let legal : ltb (1024 * 64) (length c.querybuf) ≡ false = ground arith in rw legal refl
multibulk_line-read_count c (some newline) small =
    rw (passes_end_small (length c.querybuf) (newline + 2) (omega arith))
      (elim (Bool-cases (ltb (length c.querybuf) (newline + 2))) [
        | inl e ↦ rw e refl
        | inr e ↦ elim (Bool-cases (get_or c.querybuf 0 0 == b'*')) [
          | inl f ↦
              rw (e, f)
                (multibulk_count-read_number c newline
                  (string2ll (take (newline - 1) (drop 1 c.querybuf))) (ground arith) small)
          | inr f ↦ rw (e, f) refl
        ]
      ])

-- On a buffer of at most 64 KB, `processMultibulkBuffer` is the plain reader.
pub process_multibulk-read_request :
    (c : Client) → length c.querybuf ≤ inline_max_size → process_multibulk c ≡ read_request c
unfolding process_multibulk multibulk_body read_request
process_multibulk-read_request c small = elim (Bool-cases (c.multibulklen == 0)) [
  | inl z ↦ elim (Bool-cases (is_empty c.argv)) [
    | inl e ↦ rw (z, e) (multibulk_line-read_count c (strchr c.querybuf b'\r') small)
    | inr e ↦ rw (z, e) refl
  ]
  | inr z ↦ rw z (bulk_loop-read_arguments c.multibulklen c 0 refl (omega arith) small)
]
