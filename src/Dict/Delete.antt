-- ===== src/Dict/Delete.antt =====
-- `dictGenericDelete` (src/vr_dict.c).
use mathlib.Core.Option.{or_else}
use myownproject.Base.{
  ℕ, ◌+◌, ◌-◌, ◌≤◌, ◌<◌, ◌≡◌, refl, Bool, true, false, Option, none, some, List, [], ◌∷◌, arith,
  length, get_or, ◌==◌, ==_iff, Bool-cases, Option-cases, inl, inr, ◌∙◌, ap, sym,
}
use myownproject.Dict.{
  Dict, Dictht, bucket, index, is_rehashing, dict_size, delete, unlink_found, rehash_if_busy, find,
}
use myownproject.Dict.Entries.{DictType, Chain, chain_find, chain_remove, occurs}
use myownproject.Dict.Entries.Laws.{
  chain_remove-eq-none, length-chain_remove, occurs-chain_remove, chain_find-chain_remove,
}
use myownproject.Dict.Tables.{total}
use myownproject.Dict.Valid.{
  IsHt, Phase, IsValid, view, Keeps, Keeps-refl, find-view, chain_find_unused,
}
use myownproject.Dict.Rehash.{rehash_if_busy-Keeps}
use myownproject.Dict.Update.{write}
use myownproject.Dict.Writes.{Writes, Writes-after}
use myownproject.Dict.Rewrite.{Stands, old-Writes, new-Writes, occurs_found}

module _ {ℓ} {K V : Type ℓ} ⦃type : DictType K V⦄ where
  -- A removal from a chain stands in for the bucket.
  remove-Stands :
      (ht : Dictht K V) (key : K) (r : Chain K V)
      → ((q : K) → occurs q (bucket ht key) ≤ 1)
      → 0 < ht.used
      → chain_remove key (bucket ht key) ≡ some r
      → Stands ht key none r (ht.used - 1)
  remove-Stands ht key r o pos h = record {
    sized = omega (arith, length-chain_remove key (bucket ht key) h);
    fewer = λ q. ground (arith, occurs-chain_remove key q (bucket ht key) h);
    reads = λ q. chain_find-chain_remove key q (bucket ht key) (o q) h;
  }

  chain_remove_found :
      (key : K) (c : Chain K V) (he : K × V)
      → chain_find key c ≡ some he
      → (r : Chain K V) × (chain_remove key c ≡ some r)
  chain_remove_found key c he h = elim (Option-cases (chain_remove key c)) [
    | inl e ↦ absurd (omega (arith, occurs_found key c he h, chain_remove-eq-none key c e))
    | inr (r, e) ↦ (r, e)
  ]

  chain_remove_missing :
      (key : K) (c : Chain K V) → chain_find key c ≡ none → chain_remove key c ≡ none
  unfolding chain_find chain_remove
  chain_remove_missing key [] h = refl
  chain_remove_missing key (he ∷ c) h = ground (arith, chain_remove_missing key c)

  used_pos :
      (ht : Dictht K V) (key : K) (he : K × V)
      → IsHt ht
      → chain_find key (bucket ht key) ≡ some he
      → 0 < ht.used
  used_pos ht key he v h = elim (Bool-cases (ht.used == 0)) [
    | inl e ↦ cc (h, chain_find_unused ht key v ((==_iff ht.used 0).0 e))
    | inr e ↦ ground arith
  ]

  few_in_bucket : (d : Dict K V) → IsValid d → (key q : K) → occurs q (bucket d.ht0 key) ≤ 1
  few_in_bucket d v key q = elim (Bool-cases (index d.ht0 q == index d.ht0 key)) [
    | inl e ↦ omega (
      arith,
      v.once q,
      ap (λ k. occurs q (get_or d.ht0.table k [])) ((==_iff (index d.ht0 q) (index d.ht0 key)).0 e),
    )
    | inr e ↦ omega (arith, v.old.placed q (index d.ht0 key) (ground arith))
  ]

  few_in_new_bucket : (d : Dict K V) → IsValid d → (key q : K) → occurs q (bucket d.ht1 key) ≤ 1
  few_in_new_bucket d v key q = elim (Bool-cases (index d.ht1 q == index d.ht1 key)) [
    | inl e ↦ omega (
      arith,
      v.once q,
      ap (λ k. occurs q (get_or d.ht1.table k [])) ((==_iff (index d.ht1 q) (index d.ht1 key)).0 e),
    )
    | inr e ↦ omega (arith, v.new.placed q (index d.ht1 key) (ground arith))
  ]

  unlink_found_old :
      (d : Dict K V) (key : K) (r : Chain K V)
      → chain_remove key (bucket d.ht0 key) ≡ some r
      → unlink_found key d ≡ (record d { ht0 = write d.ht0 key r (d.ht0.used - 1) }, true)
  unfolding unlink_found
  unlink_found_old d key r h = ground arith

  unlink_found_new :
      (d : Dict K V) (key : K) (r : Chain K V)
      → chain_remove key (bucket d.ht0 key) ≡ none
      → is_rehashing d ≡ true
      → chain_remove key (bucket d.ht1 key) ≡ some r
      → unlink_found key d ≡ (record d { ht1 = write d.ht1 key r (d.ht1.used - 1) }, true)
  unfolding unlink_found
  unlink_found_new d key r g b h = ground arith

  unlink_found-none :
      (d : Dict K V) (key : K)
      → chain_remove key (bucket d.ht0 key) ≡ none
      → chain_remove key (bucket d.ht1 key) ≡ none
      → unlink_found key d ≡ (d, false)
  unfolding unlink_found
  unlink_found-none d key g h = ground arith

  abbrev Deleted : Dict K V → K → Dict K V × Bool → Type ℓ
  Deleted d key r = (r.1 ≡ true) × Writes d key none r.0 × (dict_size r.0 + 1 ≡ dict_size d)

  unlink_found-Deleted :
      (d : Dict K V) (key : K) (he : K × V)
      → IsValid d
      → view d key ≡ some he
      → Deleted d key (unlink_found key d)
  unfolding view or_else
  unlink_found-Deleted d key he v h = elim (Option-cases (chain_find key (bucket d.ht0 key))) [
    | inr (e, f) ↦
        let (r, g) = chain_remove_found key (bucket d.ht0 key) e f in
        let pos = used_pos d.ht0 key e v.old f in
        rw (unlink_found_old d key r g) (
          refl,
          old-Writes d v key e none r (d.ht0.used - 1) f
              (remove-Stands d.ht0 key r (few_in_bucket d v key) pos g),
          omega arith,
        )
    | inl f ↦
        let f' : chain_find key (bucket d.ht1 key) ≡ some he = rw f at h in
        let (r, g) = chain_remove_found key (bucket d.ht1 key) he f' in
        let pos = used_pos d.ht1 key he v.new f' in
        rw
          (unlink_found_new d key r (chain_remove_missing key (bucket d.ht0 key) f)
            (busy d.rehashidx pos v.phase) g)
          (
            refl,
            new-Writes d v key he none r (d.ht1.used - 1) f f'
                (remove-Stands d.ht1 key r (few_in_new_bucket d v key) pos g),
            omega arith,
          )
  ]
    where
      busy :
          (o : Option ℕ)
          → 0 < d.ht1.used
          → Phase o d.ht0 d.ht1
          → (elim o [ none ↦ false | some _ ↦ true ]) ≡ true
      busy none pos p = absurd (omega (arith, ap (λ (t : Dictht K V). t.used) p))
      busy (some idx) pos p = refl

  -- With no buckets there is no key.
  size-zero : (d : Dict K V) (key : K) → IsValid d → d.ht0.size ≡ 0 → view d key ≡ none
  unfolding view or_else total
  size-zero d key v h =
      rw
        (chain_find_unused d.ht0 key v.old
          (omega (arith, v.old.counted, no_entries d.ht0.table, v.old.width)))
        (chain_find_unused d.ht1 key v.new (idle d.rehashidx v.phase))
    where
      no_entries : (t : List (Chain K V)) → length t ≡ 0 → total t ≡ 0
      no_entries [] e = refl
      no_entries (c ∷ t) e = absurd (omega arith)

      idle : (o : Option ℕ) → Phase o d.ht0 d.ht1 → d.ht1.used ≡ 0
      idle none p = ap (λ (t : Dictht K V). t.used) p
      idle (some idx) p = absurd (omega (arith, p.1))

  view-none :
      (d : Dict K V) (key : K)
      → view d key ≡ none
      → (chain_find key (bucket d.ht0 key) ≡ none) × (chain_find key (bucket d.ht1 key) ≡ none)
  unfolding view or_else
  view-none d key h = ground arith

  delete_some :
      (d : Dict K V) (key : K)
      → (d.ht0.size == 0) ≡ false
      → delete d key ≡ unlink_found key (rehash_if_busy d)
  unfolding delete
  delete_some d key e = rw e

  delete_none : (d : Dict K V) (key : K) → (d.ht0.size == 0) ≡ true → delete d key ≡ (d, false)
  unfolding delete
  delete_none d key e = rw e

  -- Deleting a key that is there takes exactly its entry out, on either table and whatever rehashing
  -- is done first.
  pub delete-Writes :
      (d : Dict K V) (key : K) (he : K × V)
      → IsValid d
      → find d key ≡ some he
      → ((delete d key).1 ≡ true)
        × Writes d key none (delete d key).0
        × (dict_size (delete d key).0 + 1 ≡ dict_size d)
  delete-Writes d key he v h =
      let there : view d key ≡ some he = sym (find-view d v key) ∙ h in
      elim (Bool-cases (d.ht0.size == 0)) [
        | inl e ↦ cc (size-zero d key v ((==_iff d.ht0.size 0).0 e))
        | inr e ↦
            let k = rehash_if_busy-Keeps d v in
            let r =
              unlink_found-Deleted (rehash_if_busy d) key he k.valid (k.same_view key ∙ there) in
            rw (delete_some d key e) (r.0, Writes-after k r.1, omega (arith, r.2, k.same_size))
      ]

  -- Deleting a key that is not there fails, and changes nothing that a lookup can see.
  pub delete-Keeps :
      (d : Dict K V) (key : K)
      → IsValid d
      → find d key ≡ none
      → ((delete d key).1 ≡ false) × Keeps d (delete d key).0
  delete-Keeps d key v h =
      let k = rehash_if_busy-Keeps d v in
      let gone : view d key ≡ none = sym (find-view d v key) ∙ h in
      let (f, g) = view-none (rehash_if_busy d) key (k.same_view key ∙ gone) in
      elim (Bool-cases (d.ht0.size == 0)) [
        | inl e ↦ rw (delete_none d key e) (refl, Keeps-refl v)
        | inr e ↦
            rw
              (
                delete_some d key e,
                unlink_found-none (rehash_if_busy d) key (chain_remove_missing key _ f)
                    (chain_remove_missing key _ g),
              )
              (refl, k)
      ]
