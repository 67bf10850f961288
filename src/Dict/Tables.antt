-- ===== src/Dict/Tables.antt =====
-- Tables as lists of buckets: their entries counted, where entries stand, and the move of a bucket.
use mathlib.Core.Option.{or_else}
use myownproject.Base.{
  ℕ, zero, suc, ◌+◌, ◌≤◌, ◌<◌, ◌≡◌, ◌≢◌, refl, true, List, [], ◌∷◌, arith, if◌then◌else◌, ◌==◌,
  length, get_or, set, length-set, get_or-set, bit_and, replicate,
}
use myownproject.Base.Bits.{bit_and-le}
use myownproject.Dict.Entries.{DictType, Chain, is_key, chain_find, occurs}
use myownproject.Dict.Entries.Laws.{hash-is_key, chain_find-eq-none}

module _ {ℓ} {A : Type ℓ} where
  -- How many entries a table has.
  unfoldable pub total : List (List A) → ℕ
  total [] = 0
  total (c ∷ t) = length c + total t

  pub length-le-total : (t : List (List A)) (i : ℕ) → length (get_or t i []) ≤ total t
  unfolding total
  length-le-total [] i = omega arith
  length-le-total (c ∷ t) zero = omega arith
  length-le-total (c ∷ t) (suc i) = omega (arith, length-le-total t i)

  pub total-set :
      (t : List (List A)) (i : ℕ) (c : List A)
      → i < length t
      → total (set t i c) + length (get_or t i []) ≡ total t + length c
  unfolding total
  total-set [] i c h = absurd (omega arith)
  total-set (x ∷ t) zero c h = omega arith
  total-set (x ∷ t) (suc i) c h = omega (arith, total-set t i c (omega arith))

  -- A table with an entry has it at or past the first `n` buckets, if those are empty.
  pub total_empty :
      (t : List (List A)) → ((i : ℕ) → i < length t → get_or t i [] ≡ []) → total t ≡ 0
  unfolding total
  total_empty [] h = refl
  total_empty (c ∷ t) h =
      omega (arith, ap_length (h 0 (omega arith)), total_empty t (λ i p. h (suc i) (omega arith)))
    where
      ap_length : {c : List A} → c ≡ [] → length c ≡ 0
      ap_length e = rw e

pub total-replicate {ℓ} : (A : Type ℓ) (n : ℕ) → total (replicate {A = List A} n []) ≡ 0
unfolding total
total-replicate A zero = refl
total-replicate A (suc n) = omega (arith, total-replicate A n)

module _ {ℓ} {K V : Type ℓ} (type : DictType K V) where
  -- `dictHashKey(d,key) & sizemask`
  unfoldable pub home : ℕ → K → ℕ
  home mask q = bit_and (type.hash q) mask

  pub home-le : (mask : ℕ) (q : K) → home mask q ≤ mask
  unfolding home
  home-le mask q = bit_and-le (type.hash q) mask

  pub home_congr : (mask : ℕ) (a b : K) → is_key type a b ≡ true → home mask a ≡ home mask b
  unfolding home
  home_congr mask a b e = rw (hash-is_key type a b e)

module _ {ℓ} {K V : Type ℓ} ⦃type : DictType K V⦄ where
  -- Every entry stands in the bucket that its hash and the mask give.
  abbrev pub IsPlaced : ℕ → List (Chain K V) → Type ℓ
  IsPlaced mask t = (q : K) (i : ℕ) → home type mask q ≢ i → occurs q (get_or t i []) ≡ 0

  unfoldable pub move_table : ℕ → Chain K V → List (Chain K V) → List (Chain K V)
  move_table mask [] t = t
  move_table mask (he ∷ c) t =
      move_table mask c (set t (home type mask he.0) (he ∷ get_or t (home type mask he.0) []))

  pub length-move_table :
      (mask : ℕ) (c : Chain K V) (t : List (Chain K V)) → length (move_table mask c t) ≡ length t
  unfolding move_table
  length-move_table mask [] t = refl
  length-move_table mask (he ∷ c) t = omega (
    arith,
    length-move_table mask c (set t (home type mask he.0) (he ∷ get_or t (home type mask he.0) [])),
    length-set t (home type mask he.0) (he ∷ get_or t (home type mask he.0) []),
  )

  pub total-move_table :
      (mask : ℕ) (c : Chain K V) (t : List (Chain K V))
      → mask < length t
      → total (move_table mask c t) ≡ total t + length c
  unfolding move_table
  total-move_table mask [] t h = omega arith
  total-move_table mask (he ∷ c) t h =
      let i = home type mask he.0 in
      let b = he ∷ get_or t i [] in
      omega (
        arith,
        total-move_table mask c (set t i b),
        length-set t i b,
        total-set t i b,
        home-le type mask he.0,
      )

  pub occurs-move_table :
      (mask : ℕ) (c : Chain K V) (t : List (Chain K V)) (q : K) (j : ℕ)
      → mask < length t
      → occurs q (get_or (move_table mask c t) j [])
        ≡ occurs q (get_or t j []) + (if home type mask q == j then occurs q c else 0)
  unfolding move_table occurs
  occurs-move_table mask [] t q j h = ground arith
  occurs-move_table mask (he ∷ c) t q j h =
      let i = home type mask he.0 in
      let b = he ∷ get_or t i [] in
      ground (
        arith,
        occurs-move_table mask c (set t i b) q j,
        length-set t i b,
        get_or-set t i j b [],
        home-le type mask he.0,
        home_congr type mask q he.0,
      )

  pub chain_find-move_table :
      (mask : ℕ) (c : Chain K V) (t : List (Chain K V)) (q : K)
      → mask < length t
      → occurs q c + occurs q (get_or t (home type mask q) []) ≤ 1
      → chain_find q (get_or (move_table mask c t) (home type mask q) [])
        ≡ or_else (chain_find q c) (chain_find q (get_or t (home type mask q) []))
  unfolding move_table occurs chain_find or_else
  chain_find-move_table mask [] t q h o = refl
  chain_find-move_table mask (he ∷ c) t q h o =
      let i = home type mask he.0 in
      let b = he ∷ get_or t i [] in
      ground (
        arith,
        chain_find-move_table mask c (set t i b) q,
        length-set t i b,
        get_or-set t i (home type mask q) b [],
        home-le type mask he.0,
        home_congr type mask q he.0,
        chain_find-eq-none q c,
        chain_find-eq-none q (get_or t i []),
      )
