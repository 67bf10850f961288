-- ===== src/Slowlog/Order.antt =====
-- The slow log (src/vr_slowlog.c) keeps the newest entries, in order.
use myownproject.Base.{
  ℕ, zero, suc, ◌+◌, ◌-◌, ◌≤◌, ◌<◌, ◌≡◌, refl, sym, ap, ◌∙◌, true, false, List, [], ◌∷◌, ◌++◌, map,
  ◌⊎◌, ltb, ◌==◌, if◌then◌else◌, arith, length, take, Bool-cases, inl, inr,
}
use myownproject.Base.Int.{ℤ, pos, negsuc, ltb_ℤ, eqb_ℤ}
use myownproject.Slowlog.{
  Argument, SlowlogEntry, Slowlog, delete_last, trim_loop, record_entry, trim_argument, push, reset,
  sent, copy_arguments, create_entry,
}

-- The ids descend from below a bound.
unfoldable pub IsDescending : ℕ → List SlowlogEntry → Type 0
IsDescending bound [] = Unit {0}
IsDescending bound (e ∷ es) = (e.id < bound) × IsDescending e.id es

take-IsDescending :
    (n bound : ℕ) (es : List SlowlogEntry) → IsDescending bound es → IsDescending bound (take n es)
unfolding IsDescending
take-IsDescending zero bound es d = tt
take-IsDescending (suc n) bound [] d = tt
take-IsDescending (suc n) bound (e ∷ es) d = (d.0, take-IsDescending n e.id es d.1)

take_all : (n : ℕ) (es : List SlowlogEntry) → length es ≤ n → take n es ≡ es
take_all zero [] h = refl
take_all zero (e ∷ es) h = absurd (omega arith)
take_all (suc n) [] h = refl
take_all (suc n) (e ∷ es) h = ap (λ l. e ∷ l) (take_all n es (omega arith))

length-delete_last : (es : List SlowlogEntry) → length (delete_last es) ≡ length es - 1
unfolding delete_last
length-delete_last [] = omega arith
length-delete_last (e ∷ es) = elim (Bool-cases (length es == 0)) [
  | inl z ↦ rw z (ground arith)
  | inr z ↦ rw z (let l = length-delete_last es in ground arith)
]

take-delete_last :
    (n : ℕ) (es : List SlowlogEntry) → n < length es → take n (delete_last es) ≡ take n es
unfolding delete_last
take-delete_last zero es h = refl
take-delete_last (suc n) [] h = refl
take-delete_last (suc n) (e ∷ es) h = elim (Bool-cases (length es == 0)) [
  | inl z ↦ absurd (ground arith)
  | inr z ↦ rw z (ap (λ l. e ∷ l) (take-delete_last n es (omega arith)))
]

trim_loop-take :
    (fuel n : ℕ) (es : List SlowlogEntry) → length es ≤ fuel → trim_loop fuel n es ≡ take n es
unfolding trim_loop
trim_loop-take zero n es h = sym (take_all n es (omega arith))
trim_loop-take (suc fuel) n es h = elim (Bool-cases (ltb n (length es))) [
  | inl l ↦ rw l (
      trim_loop-take fuel n (delete_last es) (omega (arith, length-delete_last es))
      ∙ take-delete_last n es (ground arith))
  | inr l ↦ rw l (sym (take_all n es (ground arith)))
]

-- SLOWLOG GET with a count of at least 0 sends that many of the newest entries, as far as there are.
pub sent-take : (n : ℕ) (es : List SlowlogEntry) → sent (pos n) es ≡ take n es
unfolding sent
sent-take zero [] = refl
sent-take zero (e ∷ es) = refl
sent-take (suc n) [] = refl
sent-take (suc n) (e ∷ es) =
    let more : eqb_ℤ (pos (suc n)) (pos 0) ≡ false = ground arith in
    rw more (ap (λ l. e ∷ l) (sent-take n es))

-- SLOWLOG GET with a count below 0 sends all entries.
pub sent_all : (n : ℕ) (es : List SlowlogEntry) → sent (negsuc n) es ≡ es
unfolding sent
sent_all n [] = refl
sent_all n (e ∷ es) =
    let more : eqb_ℤ (negsuc n) (pos 0) ≡ false = ground arith in
    rw more (ap (λ l. e ∷ l) (sent_all (suc n) es))

-- SLOWLOG RESET removes every entry and keeps the next id.
pub reset_lem : (log : Slowlog) → ((reset log).entries ≡ []) × ((reset log).next_id ≡ log.next_id)
unfolding reset
reset_lem log = (trim_loop-take (length log.entries) 0 log.entries (omega arith), refl)

-- The argument that stands for the others.
abbrev pub omitted : (ℕ → List ℕ) → ℕ → Argument
omitted more_arguments n = record { is_text = true; bytes = more_arguments n }

module _ (more_arguments : ℕ → List ℕ) (more_bytes : List ℕ → ℕ → List ℕ) where
  -- While the log is enabled, an operation that is slow enough is logged in front and exactly the
  -- newest `max_len` entries stay.
  pub push-take :
      (slower_than : ℤ) (max_len : ℕ) (log : Slowlog) (argv : List Argument) (duration : ℤ)
      (time : ℕ)
      → ltb_ℤ slower_than (pos 0) ≡ false
      → (push more_arguments more_bytes slower_than max_len log argv duration time).entries
        ≡ take max_len (
            if ltb_ℤ duration slower_than
            then log.entries
            else create_entry more_arguments more_bytes argv duration time log.next_id
              ∷ log.entries)
  unfolding push record_entry
  push-take slower_than max_len log argv duration time enabled =
      elim (Bool-cases (ltb_ℤ duration slower_than)) [
        | inl e ↦
            rw (enabled, e) (trim_loop-take (length log.entries) max_len log.entries (omega arith))
        | inr e ↦
            rw (enabled, e)
              (trim_loop-take (suc (length log.entries)) max_len
                (create_entry more_arguments more_bytes argv duration time log.next_id
                  ∷ log.entries)
                (omega arith))
      ]

  -- Where the ids descend from below the next id, they do so after a call for any command.
  pub push-IsDescending :
      (slower_than : ℤ) (max_len : ℕ) (log : Slowlog) (argv : List Argument) (duration : ℤ)
      (time : ℕ)
      → IsDescending log.next_id log.entries
      → IsDescending
          (push more_arguments more_bytes slower_than max_len log argv duration time).next_id
          (push more_arguments more_bytes slower_than max_len log argv duration time).entries
  unfolding push record_entry IsDescending create_entry
  push-IsDescending slower_than max_len log argv duration time d =
      elim (Bool-cases (ltb_ℤ slower_than (pos 0))) [
        | inl off ↦ rw off d
        | inr on ↦ elim (Bool-cases (ltb_ℤ duration slower_than)) [
          | inl e ↦
              rw (on, e, trim_loop-take (length log.entries) max_len log.entries (omega arith))
                (take-IsDescending max_len log.next_id log.entries d)
          | inr e ↦
              (let new = create_entry more_arguments more_bytes argv duration time log.next_id in
                rw
                  (
                    on,
                    e,
                    trim_loop-take (suc (length log.entries)) max_len (new ∷ log.entries)
                        (omega arith),
                  )
                  (take-IsDescending max_len (log.next_id + 1) (new ∷ log.entries)
                    (omega arith, d)))
        ]
      ]

  copy_arguments_full :
      (argc : ℕ) (argv : List Argument)
      → copy_arguments more_arguments more_bytes argc argc (length argv) argv
        ≡ map (trim_argument more_arguments more_bytes) argv
  unfolding copy_arguments
  copy_arguments_full argc [] = refl
  copy_arguments_full argc (a ∷ argv) =
      let e : (argc == argc) ≡ true = ground arith in
      rw e (ap (λ l. trim_argument more_arguments more_bytes a ∷ l) (copy_arguments_full argc argv))

  copy_arguments_cut :
      (argc slargc k : ℕ) (argv : List Argument)
      → (slargc == argc) ≡ false
      → suc k ≤ length argv
      → copy_arguments more_arguments more_bytes argc slargc (suc k) argv
        ≡ map (trim_argument more_arguments more_bytes) (take k argv)
          ++ (omitted more_arguments (argc - slargc + 1) ∷ [])
  unfolding copy_arguments
  copy_arguments_cut argc slargc k [] other h = absurd (omega arith)
  copy_arguments_cut argc slargc zero (a ∷ argv) other h = rw other refl
  copy_arguments_cut argc slargc (suc k) (a ∷ argv) other h =
      let more : (suc k == 0) ≡ false = ground arith in
      rw (other, more)
        (ap (λ l. trim_argument more_arguments more_bytes a ∷ l)
          (copy_arguments_cut argc slargc k argv other (omega arith)))

  -- An entry of at most 32 arguments has them all, each cut to 128 bytes; of more it has the first
  -- 31 and the number of the others.
  pub create_entry_lem :
      (argv : List Argument) (duration : ℤ) (time id : ℕ)
      → ((length argv ≤ 32)
          × ((create_entry more_arguments more_bytes argv duration time id).argv
              ≡ map (trim_argument more_arguments more_bytes) argv))
        ⊎ ((32 < length argv)
            × ((create_entry more_arguments more_bytes argv duration time id).argv
                ≡ map (trim_argument more_arguments more_bytes) (take 31 argv)
                  ++ (omitted more_arguments (length argv - 31) ∷ [])))
  unfolding create_entry
  create_entry_lem argv duration time id = elim (Bool-cases (ltb 32 (length argv))) [
    | inl e ↦
        (let other : (32 == length argv) ≡ false = ground arith in
          let count : length argv - 32 + 1 ≡ length argv - 31 = ground arith in
          inr (
            ground arith,
            rw e (rw count at (copy_arguments_cut (length argv) 32 31 argv other (ground arith))),
          ))
    | inr e ↦ inl (ground arith, rw e (copy_arguments_full (length argv) argv))
  ]
