-- ===== src/Intset/Search.antt =====
-- `intsetSearch` (src/vr_intset.c): binary search on a sorted set.
use myownproject.Base.{
  ℕ, zero, suc, ◌+◌, ◌-◌, ◌/◌, ◌^◌, sym, ◌≤◌, ◌<◌, ◌≡◌, Bool, true, false, arith, ◌⊎◌, inl, inr,
  ltb, leb, ◌==◌, Bool-cases,
}
use myownproject.Base.Int.{ℤ, negsuc, ltb_ℤ, eqb_ℤ, ◌<ℤ◌, eqb_ℤ→eq}
use myownproject.Intset.{Intset, get, search_loop, outcome, search}

-- The values stand in strictly ascending order.
abbrev pub IsSorted : Intset → Type 0
IsSorted is = (i j : ℕ) → i < j → j < is.len → get is i <ℤ get is j

-- All values before an index are below `v`; all from one on are above it.
abbrev pub Below : Intset → ℤ → ℕ → Type 0
Below is v n = (i : ℕ) → i < n → get is i <ℤ v

abbrev pub Above : Intset → ℤ → ℕ → Type 0
Above is v n = (i : ℕ) → n ≤ i → i < is.len → v <ℤ get is i

-- What a search promises: the index of the value, or the place between the smaller and the
-- greater values.
unfoldable pub IsPlace : Intset → ℤ → Bool × ℕ → Type 0
IsPlace is v (true, i) = (i < is.len) × (get is i ≡ v)
IsPlace is v (false, i) = (i ≤ is.len) × (Below is v i × Above is v i)

Below-next :
    (is : Intset) (v : ℤ) (m : ℕ) → IsSorted is → m < is.len → get is m <ℤ v → Below is v (m + 1)
Below-next is v m sorted inside h i l = elim (Bool-cases (ltb i m)) [
  | inl e ↦ (let s = sorted i m (ground arith) inside in omega (arith, s, h))
  | inr e ↦ (let same : m ≡ i = ground arith in rw same at h)
]

Above-from : (is : Intset) (v : ℤ) (m : ℕ) → IsSorted is → v <ℤ get is m → Above is v m
Above-from is v m sorted h i l inside = elim (Bool-cases (ltb m i)) [
  | inl e ↦ (let s = sorted m i (ground arith) inside in omega (arith, s, h))
  | inr e ↦ (let same : m ≡ i = ground arith in rw same at h)
]

found_at :
    (is : Intset) (v : ℤ) (m min : ℕ)
    → m < is.len
    → ltb_ℤ (get is m) v ≡ false
    → ltb_ℤ v (get is m) ≡ false
    → IsPlace is v (outcome v (get is m, m, min))
unfolding IsPlace
found_at is v m min inside lo hi =
    let e : eqb_ℤ v (get is m) ≡ true = ground arith in rw e (inside, sym (eqb_ℤ→eq v (get is m) e))

exit-IsPlace :
    (is : Intset) (v : ℤ) (min past mid : ℕ) (cur : ℤ)
    → past ≤ min
    → min ≤ past
    → past ≤ is.len
    → Below is v min
    → Above is v past
    → (min < past) ⊎ (eqb_ℤ v cur ≡ false)
    → IsPlace is v (outcome v (cur, mid, min))
unfolding IsPlace
exit-IsPlace is v min past mid cur ge le in_len below above (inl l) = absurd (omega arith)
exit-IsPlace is v min past mid cur ge le in_len below above (inr e) =
    let same : past ≡ min = omega arith in rw e (rw same at in_len, (below, rw same at above))

search_loop-IsPlace :
    (fuel : ℕ) (is : Intset) (v : ℤ) (min past mid : ℕ) (cur : ℤ)
    → IsSorted is
    → past ≤ fuel + min
    → min ≤ past
    → past ≤ is.len
    → Below is v min
    → Above is v past
    → (min < past) ⊎ (eqb_ℤ v cur ≡ false)
    → IsPlace is v (outcome v (search_loop fuel is v min past mid cur))
unfolding search_loop
search_loop-IsPlace zero is v min past mid cur sorted enough le in_len below above start =
    exit-IsPlace is v min past mid cur (omega arith) le in_len below above start
search_loop-IsPlace (suc fuel) is v min past mid cur sorted enough le in_len below above start =
    let middle = (min + (past - 1)) / 2 in
    elim (Bool-cases (leb past min)) [
      | inl done ↦
          rw done (exit-IsPlace is v min past mid cur (ground arith) le in_len below above start)
      | inr more ↦
          (let wide : min < past = ground arith in
            elim (Bool-cases (ltb_ℤ (get is middle) v)) [
              | inl up ↦
                  rw (more, up)
                    (search_loop-IsPlace fuel is v (middle + 1) past middle (get is middle) sorted
                      (omega arith) (omega arith) in_len
                      (Below-next is v middle sorted (omega arith) (ground arith)) above
                      (inr (ground arith)))
              | inr not_up ↦ elim (Bool-cases (ltb_ℤ v (get is middle))) [
                | inl down ↦
                    rw (more, not_up, down)
                      (search_loop-IsPlace fuel is v min middle middle (get is middle) sorted
                        (omega arith) (omega arith) (omega arith) below
                        (Above-from is v middle sorted (ground arith)) (inr (ground arith)))
                | inr here ↦
                    rw (more, not_up, here) (found_at is v middle min (omega arith) not_up here)
              ]
            ])
    ]

-- On a sorted set `intsetSearch` gives the index of the value, or else the index between the
-- smaller and the greater values.
pub search-IsPlace : (is : Intset) (v : ℤ) → IsSorted is → IsPlace is v (search is v)
unfolding search IsPlace
search-IsPlace is v sorted = elim (Bool-cases (is.len == 0)) [
  | inl empty ↦
      rw empty (omega arith, ((λ i l. absurd (omega arith)), (λ i l k. absurd (ground arith))))
  | inr full ↦
      (let some_value : 0 < is.len = ground arith in
        elim (Bool-cases (ltb_ℤ (get is (is.len - 1)) v)) [
          | inl past_all ↦
              rw (full, past_all)
                (
                  omega arith,
                  (
                    (let one : is.len - 1 + 1 ≡ is.len = omega arith in
                        rw one at
                          (Below-next is v (is.len - 1) sorted (omega arith) (ground arith))),
                    (λ i l k. absurd (omega arith)),
                  ),
                )
          | inr not_past ↦ elim (Bool-cases (ltb_ℤ v (get is 0))) [
            | inl before ↦
                rw (full, not_past, before)
                  (
                    omega arith,
                    ((λ i l. absurd (omega arith)), Above-from is v 0 sorted (ground arith)),
                  )
            | inr not_before ↦
                rw (full, not_past, not_before)
                  (search_loop-IsPlace is.len is v 0 is.len (2 ^ 32 - 1) (negsuc 0) sorted
                    (omega arith) (omega arith) (omega arith) (λ i l. absurd (omega arith))
                    (λ i l k. absurd (omega arith)) (inl some_value))
          ]
        ])
]
