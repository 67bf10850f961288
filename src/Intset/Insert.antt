-- ===== src/Intset/Insert.antt =====
-- A value put between two others of a sorted set (src/vr_intset.c): order and members.
use myownproject.Base.{
  ℕ, zero, suc, ◌*◌, ◌≤◌, ◌<◌, ◌≡◌, refl, sym, ap, ◌∙◌, arith, ◌⊎◌, inl, inr, ltb, ◌==◌, Bool-cases,
  length,
}
use myownproject.Base.Int.{ℤ}
use mathlib.Core.Logic.{◌↔◌}
use myownproject.Intset.{Intset, get}
use myownproject.Intset.Cells.{IsEncoding, Fits}
use myownproject.Intset.Search.{IsSorted, Below, Above}
use myownproject.Intset.Valid.{Valid, Member}

-- The values of `new` are those of `old` with `v` at `p`.
pub record Inserted (old : Intset) (v : ℤ) (p : ℕ) (new : Intset) : Type 0 where
  pub inside : p ≤ old.len
  pub grown : new.len ≡ suc old.len
  pub before : (i : ℕ) → i < p → get new i ≡ get old i
  pub here : get new p ≡ v
  pub after : (i : ℕ) → p ≤ i → i < old.len → get new (suc i) ≡ get old i

module _ (old new : Intset) (v : ℤ) (p : ℕ) (ins : Inserted old v p new) where
  -- Where a value of the new set comes from.
  source :
      (i : ℕ)
      → i < new.len
      → (i < p) ⊎ ((i ≡ p) ⊎ ((k : ℕ) × (i ≡ suc k) × (p ≤ k) × (k < old.len)))
  source zero l = elim (Bool-cases (ltb 0 p)) [
    | inl e ↦ inl (ground arith)
    | inr e ↦ inr (inl (ground arith))
  ]
  source (suc k) l = elim (Bool-cases (ltb (suc k) p)) [
    | inl e ↦ inl (ground arith)
    | inr e ↦ elim (Bool-cases (suc k == p)) [
      | inl f ↦ inr (inl (ground arith))
      | inr f ↦ inr (inr (k, refl, ground arith, omega (arith, ins.grown)))
    ]
  ]

  -- Every value of the new set has a property that `v` and the old values have.
  pub each :
      (P : ℤ → Type 0)
      → P v
      → ((i : ℕ) → i < old.len → P (get old i))
      → (i : ℕ) → i < new.len
      → P (get new i)
  each P at_v olds i l = elim (source i l) [
    | inl b ↦ rw (ins.before i b) (olds i (omega (arith, ins.inside)))
    | inr (inl e) ↦ rw (e, ins.here) at_v
    | inr (inr (k, e, past, in_old)) ↦ rw (e, ins.after k past in_old) (olds k in_old)
  ]

  pub Inserted-IsSorted : IsSorted old → Below old v p → Above old v p → IsSorted new
  Inserted-IsSorted sorted below above i j l inside = elim (source i (omega arith)) [
    | inl b ↦ elim (source j inside) [
      | inl c ↦ rw (ins.before i b, ins.before j c) (sorted i j l (omega (arith, ins.inside)))
      | inr (inl e) ↦ rw (ins.before i b, e, ins.here) (below i b)
      | inr (inr (k, e, past, in_old)) ↦
          rw (ins.before i b, e, ins.after k past in_old) (sorted i k (omega arith) in_old)
    ]
    | inr (inl f) ↦ elim (source j inside) [
      | inl c ↦ absurd (omega arith)
      | inr (inl e) ↦ absurd (omega arith)
      | inr (inr (k, e, past, in_old)) ↦
          rw (f, ins.here, e, ins.after k past in_old) (above k past in_old)
    ]
    | inr (inr (m, f, past_i, in_old_i)) ↦ elim (source j inside) [
      | inl c ↦ absurd (omega arith)
      | inr (inl e) ↦ absurd (omega arith)
      | inr (inr (k, e, past, in_old)) ↦
          rw (f, ins.after m past_i in_old_i, e, ins.after k past in_old)
            (sorted m k (omega arith) in_old)
    ]
  ]

  pub Inserted-Member : (q : ℤ) → Member new q ↔ ((v ≡ q) ⊎ Member old q)
  Inserted-Member q = (
    (λ m. elim (source m.0 m.1) [
      | inl b ↦ inr (m.0, omega (arith, ins.inside), sym (ins.before m.0 b) ∙ m.2)
      | inr (inl e) ↦ inl (sym ins.here ∙ ap (get new) (sym e) ∙ m.2)
      | inr (inr (k, e, past, in_old)) ↦
          inr (k, in_old, sym (ins.after k past in_old) ∙ ap (get new) (sym e) ∙ m.2)
    ]),
    (λ s. elim s [
      | inl e ↦ (p, omega (arith, ins.inside, ins.grown), ins.here ∙ e)
      | inr m ↦ elim (Bool-cases (ltb m.0 p)) [
        | inl f ↦ (m.0, omega (arith, ins.grown, m.1), ins.before m.0 (ground arith) ∙ m.2)
        | inr f ↦ (suc m.0, omega (arith, ins.grown, m.1), ins.after m.0 (ground arith) m.1 ∙ m.2)
      ]
    ]),
  )

  pub Inserted-Valid :
      IsEncoding new.encoding
      → length new.contents ≡ new.len * new.encoding
      → Fits new.encoding v
      → ((i : ℕ) → i < old.len → Fits new.encoding (get old i))
      → IsSorted old
      → Below old v p
      → Above old v p
      → Valid new
  Inserted-Valid known sized fit olds sorted below above = record {
    known = known;
    sized = sized;
    fits = each (Fits new.encoding) fit olds;
    sorted = Inserted-IsSorted sorted below above;
  }

-- What an addition gives: the old values and `v`, in a well-formed set.
pub record Added (old : Intset) (v : ℤ) (new : Intset) : Type 0 where
  pub place : ℕ
  pub inserted : Inserted old v place new
  pub valid : Valid new
