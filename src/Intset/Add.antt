-- ===== src/Intset/Add.antt =====
-- `intsetAdd` (src/vr_intset.c) keeps a set well-formed and adds exactly its value.
use myownproject.Base.{
  ℕ, suc, ◌+◌, ◌%◌, ◌^◌, ◌≤◌, ◌<◌, ◌≡◌, refl, ◌∙◌, Bool, true, false, not, ◌||◌, arith, inl, inr,
  ltb, Bool-cases, same_answer,
}
use myownproject.Base.Int.{ℤ, eqb_ℤ, eqb_ℤ→eq, eq→eqb_ℤ}
use myownproject.Intset.{
  Intset, value_encoding, put, search, find, resize_to, move_tail, add, add_at,
}
use myownproject.Intset.Cells.{Fits, length-put}
use myownproject.Intset.Search.{Below, Above, IsPlace, search-IsPlace}
use myownproject.Intset.Valid.{Valid, value_encoding-Fits, find-Member}
use myownproject.Intset.Insert.{Added, Inserted-Valid, Inserted-Member}
use myownproject.Intset.Gap.{Gap, put-Inserted, resize_to-Gap, move_tail-Gap}
use myownproject.Intset.Upgrade.{upgrade_and_add-Added}

-- A gap of the same encoding, filled.
fill-Added :
    (is opened : Intset) (p : ℕ) (v : ℤ)
    → Valid is
    → Gap is p opened
    → opened.encoding ≡ is.encoding
    → Fits is.encoding v
    → p ≤ is.len
    → Below is v p
    → Above is v p
    → Added is v (record (put opened p v) { len = suc is.len })
unfolding put
fill-Added is opened p v valid gap same fit inside below above =
    let held : Fits opened.encoding v = rw same fit in
    let ins = put-Inserted is opened p v gap inside held in
    record {
      place = p;
      inserted = ins;
      valid =
          Inserted-Valid is (record (put opened p v) { len = suc is.len }) v p ins gap.known
            (length-put opened p v ∙ gap.sized) held (λ i l. rw same (valid.fits i l)) valid.sorted
            below above;
    }

module _ (junk : ℕ → ℕ) (is : Intset) (v : ℤ) (valid : Valid is) (small : is.len < 2 ^ 28) where
  appended :
      Fits is.encoding v
      → Below is v is.len
      → Above is v is.len
      → Added is v (record (put (resize_to junk is (suc is.len)) is.len v) { len = suc is.len })
  unfolding resize_to
  appended fit below above =
      fill-Added is (resize_to junk is (suc is.len)) is.len v valid
        (resize_to-Gap junk is valid small) refl fit (omega arith) below above

  moved :
      (p : ℕ)
      → p < is.len
      → Fits is.encoding v
      → Below is v p
      → Above is v p
      → Added is v (record (put (move_tail (resize_to junk is (suc is.len)) p (p + 1)) p v) {
        len = suc is.len;
      })
  unfolding resize_to move_tail
  moved p inside fit below above =
      fill-Added is (move_tail (resize_to junk is (suc is.len)) p (p + 1)) p v valid
        (move_tail-Gap junk is valid small p inside) refl fit (omega arith) below above

  add_at-Added :
      (r : Bool × ℕ)
      → r.0 ≡ false
      → Fits is.encoding v
      → IsPlace is v r
      → ((add_at junk is v r).0 ≡ true) × Added is v (add_at junk is v r).1
  unfolding add_at IsPlace
  add_at-Added (true, p) e fit place = absurd (ground arith)
  add_at-Added (false, p) e fit (inside, (below, above)) =
      let next : (is.len + 1) % 2 ^ 32 ≡ suc is.len = omega arith in
      elim (Bool-cases (ltb p is.len)) [
        | inl f ↦ rw (next, f) (refl, moved p (ground arith) fit below above)
        | inr f ↦
            (let last : p ≡ is.len = ground arith in
              rw (next, f, last) (refl, appended fit (rw last at below) (rw last at above)))
      ]

  -- A value that is not there is added.
  pub add_new :
      Fits 8 v → find is v ≡ false → ((add junk is v).0 ≡ true) × Added is v (add junk is v).1
  unfolding add find
  add_new fit absent = elim (Bool-cases (ltb is.encoding (value_encoding v))) [
    | inl e ↦ rw e (refl, upgrade_and_add-Added junk is v valid small fit (ground arith))
    | inr e ↦ rw e (
        add_at-Added (search is v) (ground arith)
          (value_encoding-Fits valid.known v fit (ground arith)) (search-IsPlace is v valid.sorted))
  ]

  again : (r : Bool × ℕ) → r.0 ≡ true → add_at junk is v r ≡ (false, is)
  unfolding add_at
  again (true, p) e = refl
  again (false, p) e = absurd (ground arith)

  -- A value that is there leaves the set alone.
  pub add_old : find is v ≡ true → add junk is v ≡ (false, is)
  unfolding add find
  add_old present =
      let e : ltb is.encoding (value_encoding v) ≡ false = ground arith in
      let f : (search is v).0 ≡ true = ground arith in rw e (again (search is v) f)

-- A value that is found answers for itself.
known_value : (is : Intset) (v q : ℤ) → find is v ≡ true → find is q ≡ (eqb_ℤ v q || find is q)
known_value is v q e = elim (Bool-cases (eqb_ℤ v q)) [
  | inl s ↦ rw s (rw (eqb_ℤ→eq v q s) at e)
  | inr n ↦ rw n refl
]

pub find-Added :
    (is new : Intset) (v q : ℤ) → Valid is → Added is v new → find new q ≡ (eqb_ℤ v q || find is q)
find-Added is new v q valid added =
    let (to_member, to_find) = find-Member new q added.valid in
    let (split, join) = Inserted-Member is new v added.place added.inserted q in
    let (old_member, old_find) = find-Member is q valid in
    same_answer (find new q) (eqb_ℤ v q || find is q)
      (λ e. elim (split (to_member e)) [
        | inl s ↦ (let f : eqb_ℤ v q ≡ true = eq→eqb_ℤ v q s in rw f refl)
        | inr m ↦ (let f = old_find m in ground arith)
      ])
      (λ e. elim (Bool-cases (eqb_ℤ v q)) [
        | inl s ↦ to_find (join (inl (eqb_ℤ→eq v q s)))
        | inr n ↦ to_find (join (inr (old_member (ground arith))))
      ])

-- After adding a 64-bit value to a well-formed set of less than 2 ^ 28 values, exactly that value
-- and the values found before are found, whatever fresh memory holds.
pub find-add :
    (junk : ℕ → ℕ) (is : Intset) (v q : ℤ)
    → Valid is
    → is.len < 2 ^ 28
    → Fits 8 v
    → find (add junk is v).1 q ≡ (eqb_ℤ v q || find is q)
find-add junk is v q valid small fit = elim (Bool-cases (find is v)) [
  | inl e ↦ rw (add_old junk is v valid small e) (known_value is v q e)
  | inr e ↦ find-Added is (add junk is v).1 v q valid (add_new junk is v valid small fit e).1
]

-- Adding a 64-bit value to a well-formed set of less than 2 ^ 28 values keeps the set well-formed
-- and reports success when the value was not found before.
pub add-Valid :
    (junk : ℕ → ℕ) (is : Intset) (v : ℤ)
    → Valid is
    → is.len < 2 ^ 28
    → Fits 8 v
    → Valid (add junk is v).1 × ((add junk is v).0 ≡ not (find is v))
add-Valid junk is v valid small fit = elim (Bool-cases (find is v)) [
  | inl e ↦ rw (add_old junk is v valid small e, e) (valid, refl)
  | inr e ↦
      (let (success, added) = add_new junk is v valid small fit e in (added.valid, rw e success))
]
