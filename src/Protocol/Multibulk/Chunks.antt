-- ===== src/Protocol/Multibulk/Chunks.antt =====
-- A request that comes in pieces (src/vr_client.c): to parse a piece, wait and parse on is to parse
-- the whole.
use myownproject.Base.{
  is_empty, ℕ, zero, suc, ◌+◌, ◌-◌, ◌*◌, ◌≤◌, ◌<◌, ◌≡◌, refl, sym, ap, ◌∙◌, true, false, Option,
  none, some, [], ◌∷◌, ◌++◌, ltb, arith, ◌==◌, length, get_or, take, drop, length-drop,
  length-append, take-append_le, drop-append_le, get_or-append, Bool-cases, inl, inr, Option-cases,
}
use myownproject.Base.Int.{ℤ, pos, negsuc}
use myownproject.Util.{string2ll}
use myownproject.Protocol.State.{
  Bytes, Client, ProtocolError, ok, error, panic, strchr, trim, set_protocol_error, inline_max_size,
}
use myownproject.Protocol.Multibulk.{process_multibulk}
use myownproject.Protocol.Multibulk.Rounds.{process_multibulk-Parsed}
use myownproject.Protocol.Multibulk.Reader.{
  Answer, read_body, read_length, read_line, read_argument, read_arguments, read_number, read_count,
  read_request, process_multibulk-read_request,
}

-- More bytes arrive.
abbrev pub feed : Client → Bytes → Client
feed c more = record c { querybuf = c.querybuf ++ more }

strchr-append : (xs ys : Bytes) (b i : ℕ) → strchr xs b ≡ some i → strchr (xs ++ ys) b ≡ some i
unfolding strchr
strchr-append [] ys b i e = absurd (ground arith)
strchr-append (x ∷ xs) ys b i e = elim (Bool-cases (x == b)) [
  | inl f ↦ rw f (rw f at e)
  | inr f ↦ elim (Bool-cases (x == 0)) [
    | inl z ↦ absurd (ground arith)
    | inr z ↦ elim (Option-cases (strchr xs b)) [
      | inl n ↦ absurd (ground arith)
      | inr (j, s) ↦ rw (f, z, strchr-append xs ys b j s) (rw (f, z, s) at e)
    ]
  ]
]

pub strchr-lt : (xs : Bytes) (b i : ℕ) → strchr xs b ≡ some i → i < length xs
unfolding strchr
strchr-lt [] b i e = absurd (ground arith)
strchr-lt (x ∷ xs) b i e = elim (Option-cases (strchr xs b)) [
  | inl n ↦ ground arith
  | inr (j, s) ↦ (let l = strchr-lt xs b j s in ground arith)
]

-- An answer that waits is resumed by the whole.
abbrev Resumes : Bytes → Answer → Answer → Type 0
Resumes more whole (ok, d) = Unit {0}
Resumes more whole (panic, d) = Unit {0}
Resumes more whole (error, d) =
    ((d.multibulklen == 0) ≡ false)
    × (d.close_after_reply ≡ false → read_arguments d.multibulklen (feed d more) ≡ whole)

fails-Resumes :
    (more : Bytes) (whole : Answer) (c : Client) (e : ProtocolError)
    → (c.multibulklen == 0) ≡ false
    → Resumes more whole (error, set_protocol_error c 0 e)
unfolding set_protocol_error
fails-Resumes more whole c e busy = (busy, (λ o. absurd (ground arith)))

-- The readers of one argument; those that follow are `left` more.
module _ (more : Bytes) (left : ℕ)
    (later : (d : Client)
      → d.multibulklen ≡ left
      → Resumes more (read_arguments left (feed d more)) (read_arguments left d)) where
  busy : (c : Client) → c.multibulklen ≡ suc left → (c.multibulklen == 0) ≡ false
  busy c count = ground arith

  -- Where the reader waits, the whole is what it is resumed with.
  waits-Resumes :
      (c : Client) (n : Option ℕ)
      → c.multibulklen ≡ suc left
      → c.bulklen ≡ n
      → Resumes more (read_argument (feed c more) n (read_arguments left)) (error, c)
  unfolding read_arguments
  waits-Resumes c n count bulk = (
    busy c count,
    (λ o.
        ap (λ m. read_arguments m (feed c more)) count
        ∙ ap (λ m. read_argument (feed c more) m (read_arguments left)) bulk),
  )

  read_body-Resumes :
      (c : Client) (n : ℕ)
      → c.multibulklen ≡ suc left
      → c.bulklen ≡ some n
      → Resumes more
          (read_body n (feed c more) (read_arguments left))
          (read_body n c (read_arguments left))
  unfolding read_argument read_body
  read_body-Resumes c n count bulk =
      let size = length-append c.querybuf more in
      elim (Bool-cases (ltb (length c.querybuf) (n + 2))) [
        | inl e ↦ rw e (waits-Resumes c (some n) count bulk)
        | inr e ↦
            (let enough : n + 2 ≤ length c.querybuf = ground arith in
              let long : ltb (length (c.querybuf ++ more)) (n + 2) ≡ false = ground arith in
              rw
                (
                  e,
                  long,
                  take-append_le n c.querybuf more (omega arith),
                  drop-append_le (n + 2) c.querybuf more enough,
                )
                (later
                  (record c {
                    argv = c.argv ++ (take n c.querybuf ∷ []);
                    querybuf = drop (n + 2) c.querybuf;
                    bulklen = none;
                    multibulklen = c.multibulklen - 1;
                  })
                  (omega (arith, count))))
      ]

  read_length-Resumes :
      (c : Client) (newline : ℕ) (n : Option ℤ)
      → c.multibulklen ≡ suc left
      → newline + 2 ≤ length c.querybuf
      → Resumes more
          (read_length (feed c more) newline n (read_arguments left))
          (read_length c newline n (read_arguments left))
  unfolding read_length
  read_length-Resumes c newline none count fits = fails-Resumes more _ c _ (busy c count)
  read_length-Resumes c newline (some (negsuc n)) count fits =
      fails-Resumes more _ c _ (busy c count)
  read_length-Resumes c newline (some (pos n)) count fits =
      elim (Bool-cases (ltb (512 * 1024 * 1024) n)) [
        | inl e ↦ rw e (fails-Resumes more _ c _ (busy c count))
        | inr e ↦
            rw (e, drop-append_le (newline + 2) c.querybuf more fits)
              (read_body-Resumes (record (trim c (newline + 2)) { bulklen = some n }) n count refl)
      ]

  read_line-Resumes :
      (c : Client) (newline : ℕ)
      → c.multibulklen ≡ suc left
      → c.bulklen ≡ none
      → strchr c.querybuf b'\r' ≡ some newline
      → Resumes more
          (read_line (feed c more) (some newline) (read_arguments left))
          (read_line c (some newline) (read_arguments left))
  unfolding read_argument read_line
  read_line-Resumes c newline count bulk found =
      let inside = strchr-lt c.querybuf b'\r' newline found in
      let size = length-append c.querybuf more in
      let first = get_or-append c.querybuf more 0 0 (omega arith) in
      elim (Bool-cases (ltb (length c.querybuf) (newline + 2))) [
        | inl e ↦ rw e (
          busy c count,
          (λ o.
              (waits-Resumes c none count bulk).1 o
              ∙ ap (λ n. read_line (feed c more) n (read_arguments left))
                  (strchr-append c.querybuf more b'\r' newline found)),
        )
        | inr e ↦
            (let fits : newline + 2 ≤ length c.querybuf = ground arith in
              let long : ltb (length (c.querybuf ++ more)) (newline + 2) ≡ false = ground arith in
              let digits : take (newline - 1) (drop 1 (c.querybuf ++ more))
                  ≡ take (newline - 1) (drop 1 c.querybuf) =
                ap (take (newline - 1)) (drop-append_le 1 c.querybuf more (omega arith))
                ∙ take-append_le (newline - 1) (drop 1 c.querybuf) more
                    (omega (arith, length-drop 1 c.querybuf)) in
              elim (Bool-cases (get_or c.querybuf 0 0 == b'$')) [
                | inl f ↦
                    rw (e, long, first, digits, f)
                      (read_length-Resumes c newline
                        (string2ll (take (newline - 1) (drop 1 c.querybuf))) count fits)
                | inr f ↦ rw (e, long, first, f) (fails-Resumes more _ c _ (busy c count))
              ])
      ]

  read_argument-Resumes :
      (c : Client) (n : Option ℕ)
      → c.multibulklen ≡ suc left
      → c.bulklen ≡ n
      → Resumes more
          (read_argument (feed c more) n (read_arguments left))
          (read_argument c n (read_arguments left))
  unfolding read_argument read_line
  read_argument-Resumes c (some n) count bulk = read_body-Resumes c n count bulk
  read_argument-Resumes c none count bulk = elim (Option-cases (strchr c.querybuf b'\r')) [
    | inl e ↦ rw e (waits-Resumes c none count bulk)
    | inr (newline, e) ↦
        rw (e, strchr-append c.querybuf more b'\r' newline e)
          (read_line-Resumes c newline count bulk e)
  ]

read_arguments-Resumes :
    (more : Bytes) (left : ℕ) (c : Client)
    → c.multibulklen ≡ left
    → Resumes more (read_arguments left (feed c more)) (read_arguments left c)
unfolding read_arguments
read_arguments-Resumes more zero c count = elim (Bool-cases (c.multibulklen == 0)) [
  | inl z ↦ rw z tt
  | inr z ↦ absurd (ground arith)
]
read_arguments-Resumes more (suc left) c count =
    read_argument-Resumes more left (read_arguments-Resumes more left) c c.bulklen count refl

-- The whole request: a client that waits is between its requests or reads arguments.
abbrev Continues : Bytes → Answer → Answer → Type 0
Continues more whole (ok, d) = Unit {0}
Continues more whole (panic, d) = Unit {0}
Continues more whole (error, d) = d.close_after_reply ≡ false → read_request (feed d more) ≡ whole

Resumes→Continues :
    (more : Bytes) (whole r : Answer) → Resumes more whole r → Continues more whole r
unfolding read_request
Resumes→Continues more whole (ok, d) h = tt
Resumes→Continues more whole (panic, d) h = tt
Resumes→Continues more whole (error, d) (busy, h) = λ o. rw busy (h o)

read_number-Continues :
    (more : Bytes) (c : Client) (newline : ℕ) (n : Option ℤ)
    → newline + 2 ≤ length c.querybuf
    → Continues more (read_number (feed c more) newline n) (read_number c newline n)
unfolding read_number set_protocol_error
read_number-Continues more c newline none fits = λ o. absurd (ground arith)
read_number-Continues more c newline (some (negsuc n)) fits = tt
read_number-Continues more c newline (some (pos n)) fits = elim (Bool-cases (ltb (1024 * 1024) n)) [
  | inl e ↦ rw e (λ o. absurd (ground arith))
  | inr e ↦ elim (Bool-cases (n == 0)) [
    | inl z ↦ rw (e, z) tt
    | inr z ↦
        (let d = record (trim c (newline + 2)) { multibulklen = n } in
          rw (e, z, drop-append_le (newline + 2) c.querybuf more fits)
            (Resumes→Continues more (read_arguments n (feed d more)) (read_arguments n d)
              (read_arguments-Resumes more n d refl)))
  ]
]

read_request-ready :
    (c : Client)
    → (c.multibulklen == 0) ≡ true
    → is_empty c.argv ≡ true
    → read_request c ≡ read_count c (strchr c.querybuf b'\r')
unfolding read_request
read_request-ready c idle none_yet = rw (idle, none_yet) refl

read_count-Continues :
    (more : Bytes) (c : Client) (newline : ℕ)
    → (c.multibulklen == 0) ≡ true
    → is_empty c.argv ≡ true
    → strchr c.querybuf b'\r' ≡ some newline
    → Continues more (read_count (feed c more) (some newline)) (read_count c (some newline))
unfolding read_count
read_count-Continues more c newline idle none_yet found =
    let inside = strchr-lt c.querybuf b'\r' newline found in
    let size = length-append c.querybuf more in
    let first = get_or-append c.querybuf more 0 0 (omega arith) in
    let digits : take (newline - 1) (drop 1 (c.querybuf ++ more))
        ≡ take (newline - 1) (drop 1 c.querybuf) =
      ap (take (newline - 1)) (drop-append_le 1 c.querybuf more (omega arith))
      ∙ take-append_le (newline - 1) (drop 1 c.querybuf) more
          (omega (arith, length-drop 1 c.querybuf)) in
    elim (Bool-cases (ltb (length c.querybuf) (newline + 2))) [
      | inl e ↦ rw e (λ o.
          read_request-ready (feed c more) idle none_yet
          ∙ ap (read_count (feed c more)) (strchr-append c.querybuf more b'\r' newline found))
      | inr e ↦
          (let long : ltb (length (c.querybuf ++ more)) (newline + 2) ≡ false = ground arith in
            elim (Bool-cases (get_or c.querybuf 0 0 == b'*')) [
              | inl f ↦
                  rw (e, long, first, digits, f)
                    (read_number-Continues more c newline
                      (string2ll (take (newline - 1) (drop 1 c.querybuf))) (ground arith))
              | inr f ↦ rw (e, long, first, f) tt
            ])
    ]

read_first-Continues :
    (more : Bytes) (c : Client)
    → (c.multibulklen == 0) ≡ true
    → is_empty c.argv ≡ true
    → Continues more
        (read_count (feed c more) (strchr (c.querybuf ++ more) b'\r'))
        (read_count c (strchr c.querybuf b'\r'))
unfolding read_count
read_first-Continues more c idle none_yet = elim (Option-cases (strchr c.querybuf b'\r')) [
  | inl e ↦ rw e (λ o. read_request-ready (feed c more) idle none_yet)
  | inr (newline, e) ↦
      rw (e, strchr-append c.querybuf more b'\r' newline e)
        (read_count-Continues more c newline idle none_yet e)
]

read_request-Continues :
    (more : Bytes) (c : Client) → Continues more (read_request (feed c more)) (read_request c)
unfolding read_request
read_request-Continues more c = elim (Bool-cases (c.multibulklen == 0)) [
  | inl z ↦ elim (Bool-cases (is_empty c.argv)) [
    | inl e ↦ rw (z, e) (read_first-Continues more c z e)
    | inr e ↦ rw (z, e) tt
  ]
  | inr z ↦ rw z (
      Resumes→Continues more (read_arguments c.multibulklen (feed c more))
        (read_arguments c.multibulklen c) (read_arguments-Resumes more c.multibulklen c refl))
]

-- A client that waits has no more bytes than it had.
length-waiting :
    (c d : Client)
    → process_multibulk c ≡ (error, d)
    → d.close_after_reply ≡ false
    → length d.querybuf ≤ length c.querybuf
length-waiting c d e open_ = elim (rw e at (process_multibulk-Parsed c)) [
  | inl (q, l) ↦ l
  | inr (r, x, closed) ↦ absurd (ground arith)
]

-- While the buffer holds at most 64 KB: where `processMultibulkBuffer` waits for more bytes, to call
-- it again when they are there gives what one call on all the bytes gives, verdict, arguments,
-- replies and buffer.
pub process_multibulk-feed :
    (c d : Client) (more : Bytes)
    → length c.querybuf + length more ≤ inline_max_size
    → process_multibulk c ≡ (error, d)
    → d.close_after_reply ≡ false
    → process_multibulk (feed d more) ≡ process_multibulk (feed c more)
process_multibulk-feed c d more small e open_ =
    let before = process_multibulk-read_request c (omega arith) in
    let shorter = length-waiting c d e open_ in
    process_multibulk-read_request (feed d more) (omega (arith, length-append d.querybuf more))
    ∙ (rw (sym before ∙ e) at (read_request-Continues more c)) open_
    ∙ sym (
        process_multibulk-read_request (feed c more) (omega (arith, length-append c.querybuf more)))
