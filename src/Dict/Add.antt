-- ===== src/Dict/Add.antt =====
-- `dictAdd` and `_dictKeyIndex` (src/vr_dict.c).
use mathlib.Core.Option.{or_else}
use mathlib.Core.Path.{subst}
use myownproject.Base.{
  ℕ, ◌+◌, ◌*◌, ◌^◌, ◌≤◌, ◌<◌, ◌≡◌, refl, Bool, true, false, none, some, arith, Option-cases, inl,
  inr, if◌then◌else◌, ◌∙◌, ap, sym,
}
use myownproject.Dict.Writes.{Writes, Writes-after, added_to_old-Writes, added_to_new-Writes}
use myownproject.Dict.Index.{place_old, place_new, place_sizes}
use myownproject.Dict.{
  to_int, no_index, Dict, index, is_rehashing, key_index, add, place, rehash_if_busy, dict_size,
  long_max, expand_if_needed, find,
}
use myownproject.Dict.Entries.{DictType, chain_find}
use myownproject.Dict.Entries.Laws.{is_key_dup}
use myownproject.Dict.Tables.{home-le}
use myownproject.Dict.Valid.{Phase, IsValid, view, Keeps, Keeps-trans, find-view, idle-eq-reset}
use myownproject.Dict.Rehash.{rehash_if_busy-Keeps}
use myownproject.Dict.Expand.{expand_if_needed-Expanded}

module _ {ℓ} {K V : Type ℓ} ⦃type : DictType K V⦄ where
  key_index_found :
      (b : Bool) (d e : Dict K V) (key : K) (he : K × V)
      → IsValid e
      → expand_if_needed b d ≡ some e
      → view e key ≡ some he
      → key_index b d key ≡ (e, no_index)
  unfolding key_index view or_else chain_find
  key_index_found b d e key he v x h =
      ground (arith, idle-eq-reset e.rehashidx e.ht0 e.ht1, v.phase)

  key_index_free :
      (b : Bool) (d e : Dict K V) (key : K)
      → expand_if_needed b d ≡ some e
      → view e key ≡ none
      → key_index b d key
        ≡ (e, to_int (if is_rehashing e then index e.ht1 key else index e.ht0 key))
  unfolding key_index view or_else
  key_index_free b d e key x h = ground arith

  add_present :
      (b : Bool) (d e : Dict K V) (key : K) (val : V)
      → key_index b (rehash_if_busy d) key ≡ (e, no_index)
      → add b d key val ≡ (e, false)
  unfolding add place
  add_present b d e key val h = ap (place (type.key_dup key, type.val_dup val)) h

  -- The dictionary that `_dictKeyIndex` looks into.
  prepared :
      (b : Bool) (d : Dict K V)
      → IsValid d
      → dict_size d * 2 < long_max
      → (e : Dict K V) × (expand_if_needed b (rehash_if_busy d) ≡ some e)
        × Keeps d e
        × (0 < e.ht0.size)
  prepared b d v small =
      let k = rehash_if_busy-Keeps d v in
      let x = expand_if_needed-Expanded b (rehash_if_busy d) k.valid (omega (arith, k.same_size)) in
      (x.0, x.1, Keeps-trans k x.2, x.3)

  abbrev entry_of : K → V → K × V
  entry_of key val = (type.key_dup key, type.val_dup val)

  -- What an addition of a new key brings about.
  abbrev pub Adds : Dict K V → K → V → Dict K V × Bool → Type ℓ
  Adds d key val (f, added) =
      (added ≡ true)
      × Writes d key (some (type.key_dup key, type.val_dup val)) f
      × (dict_size f ≡ dict_size d + 1)

  -- The write into the table of a dictionary in which the key is not.
  module _ (d e : Dict K V) (key : K) (val : V) (k : Keeps d e) (gone : view e key ≡ none) where
    place_old-Adds :
        e.rehashidx ≡ none
        → 0 < e.ht0.size
        → e.ht0.size ≤ 2 ^ 31
        → Adds d key val (place (entry_of key val) (e, to_int (index e.ht0 key)))
    place_old-Adds f filled few =
        let idle : is_rehashing e ≡ false = ground arith in
        let low : index e.ht0 key < 2 ^ 31 =
          omega (arith, few, filled, k.valid.old.mask, home-le type e.ht0.sizemask key) in
        rw (place_old (entry_of key val) e key low idle) (
          refl,
          Writes-after k (
              added_to_old-Writes e k.valid key (entry_of key val) (is_key_dup type key) gone f
                filled),
          omega (arith, k.same_size),
        )

    place_new-Adds :
        (idx : ℕ)
        → e.rehashidx ≡ some idx
        → e.ht1.size ≤ 2 ^ 31
        → Adds d key val (place (entry_of key val) (e, to_int (index e.ht1 key)))
    place_new-Adds idx f few =
        let busy : is_rehashing e ≡ true = ground arith in
        let filled : 0 < e.ht1.size = (subst (λ o. Phase o e.ht0 e.ht1) f k.valid.phase).2 in
        let low : index e.ht1 key < 2 ^ 31 =
          omega (arith, few, filled, k.valid.new.mask, home-le type e.ht1.sizemask key) in
        rw (place_new (entry_of key val) e key low busy) (
          refl,
          Writes-after k (
              added_to_new-Writes e k.valid key (entry_of key val) (is_key_dup type key) gone idx
                f),
          omega (arith, k.same_size),
        )

    place-Adds :
        0 < e.ht0.size
        → e.ht0.size ≤ 2 ^ 31
        → e.ht1.size ≤ 2 ^ 31
        → Adds d key val (
            place
              (entry_of key val)
              (e, to_int (if is_rehashing e then index e.ht1 key else index e.ht0 key)))
    place-Adds filled few few1 = elim (Option-cases e.rehashidx) [
      | inl f ↦
          let idle : is_rehashing e ≡ false = ground arith in rw idle (place_old-Adds f filled few)
      | inr (idx, f) ↦
          let busy : is_rehashing e ≡ true = ground arith in rw busy (place_new-Adds idx f few1)
    ]

  -- `dictAdd` of a key that is not there succeeds, whatever rehashing and growing it does on the
  -- way, as long as each of the two tables that it leaves has at most 2^31 buckets: afterwards the
  -- key reads as the new entry, every other key as before, and there is one entry more.
  pub add-Writes :
      (can_resize : Bool) (d : Dict K V) (key : K) (val : V)
      → IsValid d
      → dict_size d * 2 < long_max
      → find d key ≡ none
      → (add can_resize d key val).0.ht0.size ≤ 2 ^ 31
      → (add can_resize d key val).0.ht1.size ≤ 2 ^ 31
      → ((add can_resize d key val).1 ≡ true)
        × Writes d key (some (type.key_dup key, type.val_dup val)) (add can_resize d key val).0
        × (dict_size (add can_resize d key val).0 ≡ dict_size d + 1)
  unfolding add
  add-Writes b d key val v small h few few1 =
      let (e, x, k, filled) = prepared b d v small in
      let gone : view e key ≡ none = k.same_view key ∙ sym (find-view d v key) ∙ h in
      let i = to_int (if is_rehashing e then index e.ht1 key else index e.ht0 key) in
      let same : add b d key val ≡ place (entry_of key val) (e, i) =
        ap (place (entry_of key val)) (key_index_free b (rehash_if_busy d) e key x gone) in
      let (s, s1) = place_sizes (entry_of key val) e key i in
      subst (Adds d key val) (sym same) (
        place-Adds d e key val k gone filled (omega (arith, s, few, ap (λ t. t.0.ht0.size) same))
          (omega (arith, s1, few1, ap (λ t. t.0.ht1.size) same)))

  -- `dictAdd` of a key that is there fails, and changes nothing that a lookup can see.
  pub add-Keeps :
      (can_resize : Bool) (d : Dict K V) (key : K) (val : V) (he : K × V)
      → IsValid d
      → dict_size d * 2 < long_max
      → find d key ≡ some he
      → ((add can_resize d key val).1 ≡ false) × Keeps d (add can_resize d key val).0
  add-Keeps b d key val he v small h =
      let (e, x, k, pos) = prepared b d v small in
      let there : view e key ≡ some he = k.same_view key ∙ sym (find-view d v key) ∙ h in
      rw (add_present b d e key val (key_index_found b (rehash_if_busy d) e key he k.valid x there))
        (refl, k)
