-- ===== src/Dict/Index.antt =====
-- The `int` index of `_dictKeyIndex` and `dictAddRaw` (src/vr_dict.c).
use myownproject.Base.{
  ℕ, zero, suc, ◌+◌, ◌%◌, ◌^◌, ◌<◌, ◌≡◌, refl, ap, ◌∙◌, Bool-cases, inl, inr, true, false, arith,
  ltb, ◌∷◌,
}
use myownproject.Base.Int.{ℤ, pos, negsuc}
use myownproject.Dict.{Dict, to_int, is_rehashing, place, index, bucket}
use myownproject.Dict.Entries.{DictType}
use myownproject.Dict.Update.{write}

-- An index below 2^31 is itself as an `int`.
pub to_int_small : (i : ℕ) → i < 2 ^ 31 → to_int i ≡ pos i
to_int_small i l =
    let same : i % 2 ^ 32 ≡ i = omega (arith, l) in
    let small : ltb i (2 ^ 31) ≡ true = ground (arith, l) in rw (same, small) refl

module _ {ℓ} {K V : Type ℓ} ⦃type : DictType K V⦄ (entry : K × V) (e : Dict K V) (key : K) where
  pub place_old :
      index e.ht0 key < 2 ^ 31
      → is_rehashing e ≡ false
      → place entry (e, to_int (index e.ht0 key))
        ≡ (record e { ht0 = write e.ht0 key (entry ∷ bucket e.ht0 key) (e.ht0.used + 1) }, true)
  unfolding place
  place_old l idle = ap (λ i. place entry (e, i)) (to_int_small (index e.ht0 key) l) ∙ rw idle refl

  pub place_new :
      index e.ht1 key < 2 ^ 31
      → is_rehashing e ≡ true
      → place entry (e, to_int (index e.ht1 key))
        ≡ (record e { ht1 = write e.ht1 key (entry ∷ bucket e.ht1 key) (e.ht1.used + 1) }, true)
  unfolding place
  place_new l busy = ap (λ i. place entry (e, i)) (to_int_small (index e.ht1 key) l) ∙ rw busy refl

  -- An addition keeps the number of buckets of both tables.
  pub place_sizes :
      (i : ℤ)
      → ((place entry (e, i)).0.ht0.size ≡ e.ht0.size)
        × ((place entry (e, i)).0.ht1.size ≡ e.ht1.size)
  unfolding place
  place_sizes (negsuc zero) = (refl, refl)
  place_sizes (negsuc (suc n)) = elim (Bool-cases (is_rehashing e)) [
    | inl b ↦ rw b (refl, refl)
    | inr b ↦ rw b (refl, refl)
  ]
  place_sizes (pos i) = elim (Bool-cases (is_rehashing e)) [
    | inl b ↦ rw b (refl, refl)
    | inr b ↦ rw b (refl, refl)
  ]
