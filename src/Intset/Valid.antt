-- ===== src/Intset/Valid.antt =====
-- What `intsetAdd` and `intsetRemove` (src/vr_intset.c) keep of a set, and its members.
use myownproject.Base.{
  ℕ, ◌+◌, ◌-◌, ◌*◌, ◌%◌, ◌^◌, ◌≤◌, ◌<◌, ◌≡◌, refl, ap, Bool, true, false, ◌||◌, some, none, arith,
  ◌⊎◌, inl, inr, ltb, leb, Bool-cases, length,
}
use myownproject.Base.Int.{ℤ, pos, negsuc, ltb_ℤ, ◌<ℤ◌, pos_part, neg_part}
use native.Mathlib.Nat.{mod-lt}
use mathlib.Core.Logic.{◌↔◌}
use myownproject.Intset.Moves.{size_exact}
use myownproject.Intset.{Intset, get, value_encoding, search, find, get_at, blob_len, random}
use myownproject.Intset.Cells.{IsEncoding, int16, int32, int64, Fits}
use myownproject.Intset.Search.{IsSorted, IsPlace, search-IsPlace}

-- A well-formed set: an encoding the code knows, an array of its size, values of the encoding's
-- range in ascending order.
pub record Valid (is : Intset) : Type 0 where
  pub known : IsEncoding is.encoding
  pub sized : length is.contents ≡ is.len * is.encoding
  pub fits : (i : ℕ) → i < is.len → Fits is.encoding (get is i)
  pub sorted : IsSorted is

abbrev pub Member : Intset → ℤ → Type 0
Member is v = (i : ℕ) × (i < is.len) × (get is i ≡ v)

-- The encoding of a value holds it, and so does every larger one.
pub value_encoding-IsEncoding : (v : ℤ) → IsEncoding (value_encoding v)
unfolding value_encoding
value_encoding-IsEncoding v =
    elim (Bool-cases (ltb_ℤ v (negsuc (2 ^ 31 - 1)) || ltb_ℤ (pos (2 ^ 31 - 1)) v)) [
      | inl e ↦ rw e int64
      | inr e ↦ elim (Bool-cases (ltb_ℤ v (negsuc (2 ^ 15 - 1)) || ltb_ℤ (pos (2 ^ 15 - 1)) v)) [
        | inl f ↦ rw (e, f) int32
        | inr f ↦ rw (e, f) int16
      ]
    ]

pub value_encoding-Fits :
    {e : ℕ} → IsEncoding e → (v : ℤ) → Fits 8 v → value_encoding v ≤ e → Fits e v
unfolding value_encoding
value_encoding-Fits int16 (pos a) f l = ground arith
value_encoding-Fits int16 (negsuc a) f l = ground arith
value_encoding-Fits int32 (pos a) f l = ground arith
value_encoding-Fits int32 (negsuc a) f l = ground arith
value_encoding-Fits int64 v f l = f

-- A value of a larger encoding lies beyond the whole range of the smaller one.
pub value_encoding_below :
    {e : ℕ}
    → IsEncoding e
    → (v u : ℤ) → e < value_encoding v
    → Fits e u
    → ltb_ℤ v (pos 0) ≡ true
    → v <ℤ u
unfolding value_encoding
value_encoding_below int16 v u l f s = ground arith
value_encoding_below int32 v u l f s = ground arith
value_encoding_below int64 v u l f s = ground arith

pub value_encoding_above :
    {e : ℕ}
    → IsEncoding e
    → (v u : ℤ) → e < value_encoding v
    → Fits e u
    → ltb_ℤ v (pos 0) ≡ false
    → u <ℤ v
unfolding value_encoding
value_encoding_above int16 v u l f s = ground arith
value_encoding_above int32 v u l f s = ground arith
value_encoding_above int64 v u l f s = ground arith

-- The search says whether a value is a member.
search-Member : (is : Intset) (v : ℤ) (r : Bool × ℕ) → IsPlace is v r → (r.0 ≡ true) ↔ Member is v
unfolding IsPlace
search-Member is v (true, i) (inside, here) = ((λ e. (i, inside, here)), (λ m. refl))
search-Member is v (false, i) (inside, (below, above)) = (
  (λ e. absurd (ground arith)),
  (λ m. elim (Bool-cases (ltb m.0 i)) [
    | inl e ↦
        absurd
          (let b = below m.0 (ground arith) in omega (arith, b, ap pos_part m.2, ap neg_part m.2))
    | inr e ↦
        absurd (
          let b = above m.0 (ground arith) m.1 in
          omega (arith, b, ap pos_part m.2, ap neg_part m.2))
  ]),
)

-- No member has a larger encoding.
outside : (is : Intset) (v : ℤ) → Valid is → Member is v → is.encoding < value_encoding v → ⊥
outside is v valid (i, inside, here) l =
    let f = valid.fits i inside in
    elim (Bool-cases (ltb_ℤ v (pos 0))) [
      | inl e ↦
          (let b = value_encoding_below valid.known v (get is i) l f e in
            omega (arith, b, ap pos_part here, ap neg_part here))
      | inr e ↦
          (let b = value_encoding_above valid.known v (get is i) l f e in
            omega (arith, b, ap pos_part here, ap neg_part here))
    ]

-- On a well-formed set `intsetFind` holds of exactly the values at the set's indices.
pub find-Member : (is : Intset) (v : ℤ) → Valid is → (find is v ≡ true) ↔ Member is v
unfolding find
find-Member is v valid =
    let (there, back) = search-Member is v (search is v) (search-IsPlace is v valid.sorted) in
    (
      (λ e. there (ground arith)),
      (λ m. elim (Bool-cases (leb (value_encoding v) is.encoding)) [
        | inl e ↦ rw e (back m)
        | inr e ↦ absurd (outside is v valid m (ground arith))
      ]),
    )

-- On a well-formed set `intsetGet` gives a value that `intsetFind` finds at each index of the set,
-- and nothing at any other index.
pub get_at-find :
    (is : Intset) (i : ℕ)
    → Valid is
    → ((i < is.len) × ((v : ℤ) × (get_at is i ≡ some v) × (find is v ≡ true)))
      ⊎ ((is.len ≤ i) × (get_at is i ≡ none))
unfolding get_at
get_at-find is i valid = elim (Bool-cases (ltb i is.len)) [
  | inl e ↦ inl (
    ground arith,
    (get is i, rw e refl, (find-Member is (get is i) valid).1 (i, ground arith, refl)),
  )
  | inr e ↦ inr (ground arith, rw e refl)
]

-- On a well-formed set with values `intsetRandom` returns a value that is found, whatever `rand()`
-- gave.
pub find-random : (is : Intset) (r : ℕ) → Valid is → 0 < is.len → find is (random r is) ≡ true
unfolding random
find-random is r valid full =
    (find-Member is (get is (r % is.len)) valid).1 (r % is.len, mod-lt r full, refl)

-- On a well-formed set of less than 2 ^ 28 values `intsetBlobLen` is the size of the header and the
-- array.
pub blob_len-length :
    (is : Intset) → Valid is → is.len < 2 ^ 28 → blob_len is ≡ 8 + length is.contents
unfolding blob_len
blob_len-length is valid small =
    omega (arith, size_exact valid.known is.len (omega arith), valid.sized)
