-- ===== src/Dict/Replace.antt =====
-- `dictReplace` (src/vr_dict.c).
use mathlib.Core.Option.{or_else}
use myownproject.Base.{
  ◌*◌, ◌^◌, ◌≤◌, ◌<◌, ◌≡◌, refl, Bool, true, false, none, some, arith, Option-cases, inl, inr, ◌∙◌,
  ap, sym,
}
use myownproject.Dict.{Dict, Dictht, bucket, dict_size, set_val, add, replace, find, long_max}
use myownproject.Dict.Entries.{DictType, chain_find, chain_assign}
use myownproject.Dict.Entries.Laws.{
  occurs-chain_assign, length-chain_assign, chain_find-chain_assign,
}
use myownproject.Dict.Valid.{IsValid, view, find-view}
use myownproject.Dict.Update.{write}
use myownproject.Dict.Writes.{Writes, Writes-after}
use myownproject.Dict.Add.{add-Writes, add-Keeps}
use myownproject.Dict.Rewrite.{Stands, old-Writes, new-Writes}

module _ {ℓ} {K V : Type ℓ} ⦃type : DictType K V⦄ where
  assign-Stands :
      (ht : Dictht K V) (key : K) (val : V) (he : K × V)
      → chain_find key (bucket ht key) ≡ some he
      → Stands ht key (some (he.0, val)) (chain_assign key val (bucket ht key)) ht.used
  assign-Stands ht key val he h = record {
    sized = omega (arith, length-chain_assign key val (bucket ht key));
    fewer = λ q. omega (arith, occurs-chain_assign key q val (bucket ht key));
    reads = λ q. chain_find-chain_assign key q val (bucket ht key) he h;
  }

  set_val_old :
      (d : Dict K V) (key : K) (val : V) (he : K × V)
      → chain_find key (bucket d.ht0 key) ≡ some he
      → set_val d key val
        ≡ record d { ht0 = write d.ht0 key (chain_assign key val (bucket d.ht0 key)) d.ht0.used }
  unfolding set_val
  set_val_old d key val he h = ground arith

  set_val_new :
      (d : Dict K V) (key : K) (val : V)
      → chain_find key (bucket d.ht0 key) ≡ none
      → set_val d key val
        ≡ record d { ht1 = write d.ht1 key (chain_assign key val (bucket d.ht1 key)) d.ht1.used }
  unfolding set_val
  set_val_new d key val h = ground arith

  set_val-Writes :
      (d : Dict K V) (key : K) (val : V) (he : K × V)
      → IsValid d
      → view d key ≡ some he
      → Writes d key (some (he.0, val)) (set_val d key val)
        × (dict_size (set_val d key val) ≡ dict_size d)
  unfolding view or_else
  set_val-Writes d key val he v h = elim (Option-cases (chain_find key (bucket d.ht0 key))) [
    | inr (e, f) ↦
        let same : e ≡ he = ground (arith, f) in
        rw (set_val_old d key val e f, ← same)
          (
            old-Writes d v key e (some (e.0, val)) (chain_assign key val (bucket d.ht0 key))
                d.ht0.used f (assign-Stands d.ht0 key val e f),
            refl,
          )
    | inl f ↦
        let f' : chain_find key (bucket d.ht1 key) ≡ some he = rw f at h in
        rw (set_val_new d key val f) (
          new-Writes d v key he (some (he.0, val)) (chain_assign key val (bucket d.ht1 key))
              d.ht1.used f f' (assign-Stands d.ht1 key val he f'),
          refl,
        )
  ]

  replace_added :
      (b : Bool) (d : Dict K V) (key : K) (val : V)
      → (add b d key val).1 ≡ true
      → replace b d key val ≡ ((add b d key val).0, true)
  unfolding replace
  replace_added b d key val h = rw h

  replace_old :
      (b : Bool) (d : Dict K V) (key : K) (val : V)
      → (add b d key val).1 ≡ false
      → replace b d key val ≡ (set_val (add b d key val).0 key (type.val_dup val), false)
  unfolding replace
  replace_old b d key val h = rw h

  -- `dictReplace` of a key that is there keeps the entry's key, gives it the new value, and leaves
  -- every other key and the number of entries as they were.
  pub replace-Writes :
      (can_resize : Bool) (d : Dict K V) (key : K) (val : V) (he : K × V)
      → IsValid d
      → dict_size d * 2 < long_max
      → find d key ≡ some he
      → ((replace can_resize d key val).1 ≡ false)
        × Writes d key (some (he.0, type.val_dup val)) (replace can_resize d key val).0
        × (dict_size (replace can_resize d key val).0 ≡ dict_size d)
  replace-Writes b d key val he v small h =
      let (failed, k) = add-Keeps b d key val he v small h in
      let there : view (add b d key val).0 key ≡ some he =
        k.same_view key ∙ sym (find-view d v key) ∙ h in
      let (w, n) = set_val-Writes (add b d key val).0 key (type.val_dup val) he k.valid there in
      rw (replace_old b d key val failed) (refl, Writes-after k w, n ∙ k.same_size)

  -- `dictReplace` of a key that is not there is `dictAdd`.
  pub replace_new :
      (can_resize : Bool) (d : Dict K V) (key : K) (val : V)
      → IsValid d
      → dict_size d * 2 < long_max
      → find d key ≡ none
      → (add can_resize d key val).0.ht0.size ≤ 2 ^ 31
      → (add can_resize d key val).0.ht1.size ≤ 2 ^ 31
      → replace can_resize d key val ≡ add can_resize d key val
  replace_new b d key val v small h few few1 =
      let done = (add-Writes b d key val v small h few few1).0 in
      replace_added b d key val done ∙ ap (λ t. ((add b d key val).0, t)) (sym done)
