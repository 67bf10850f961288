-- ===== src/Dict/Clear.antt =====
-- `dictEmpty` and `_dictClear` (src/vr_dict.c).
use mathlib.Core.List.{flatten}
use myownproject.Base.{
  ℕ, ◌-◌, ◌≡◌, refl, List, [], ◌∷◌, ◌++◌, arith, length, ltb, ap, inl, inr, Bool-cases, sym,
}
use mathlib.Core.Path.{ap₂}
use myownproject.Dict.{Dict, create, clear_loop, empty}
use myownproject.Dict.Entries.{DictType}
use myownproject.Dict.Tables.{total}
use myownproject.Dict.Valid.{IsValid}

module _ {ℓ} {K V : Type ℓ} where
  no_entries : (t : List (List (K × V))) → total t ≡ 0 → flatten t ≡ []
  unfolding total flatten
  no_entries [] h = refl
  no_entries ([] ∷ t) h = no_entries t (omega arith)
  no_entries ((e ∷ c) ∷ t) h = absurd (omega arith)

  -- The loop stops at a count of 0, which the count of entries makes right.
  clear_loop_lem :
      (t : List (List (K × V))) (used : ℕ) → used ≡ total t → clear_loop t used ≡ flatten t
  unfolding clear_loop total flatten
  clear_loop_lem [] used h = refl
  clear_loop_lem (c ∷ t) used h = elim (Bool-cases (ltb 0 used)) [
    | inl e ↦ rw e (ap (◌++◌ c) (clear_loop_lem t (used - length c) (omega arith)))
    | inr e ↦ rw e (sym (no_entries (c ∷ t) (ground arith)))
  ]

-- Emptying a valid dictionary leaves it as new, and frees every entry of both tables exactly once.
pub empty_lem {ℓ} :
    {K V : Type ℓ} ⦃type : DictType K V⦄ (d : Dict K V)
    → IsValid d
    → empty d ≡ (create, flatten d.ht0.table ++ flatten d.ht1.table)
unfolding empty
empty_lem d v =
    ap (λ l. (create, l))
      (ap₂ ◌++◌ (clear_loop_lem d.ht0.table d.ht0.used v.old.counted)
        (clear_loop_lem d.ht1.table d.ht1.used v.new.counted))
