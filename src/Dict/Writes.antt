-- ===== src/Dict/Writes.antt =====
-- What `dictAddRaw` (src/vr_dict.c) writes into a bucket, and what a change of one key is.
use mathlib.Core.Option.{or_else}
use mathlib.Core.Path.{subst, ap₂}
use myownproject.Base.{
  ℕ, ◌+◌, ◌<◌, ◌≡◌, ◌≢◌, true, Option, none, some, ◌∷◌, arith, length, Bool-cases, inl, inr,
  if◌then◌else◌, ◌∙◌, ap, sym,
}
use myownproject.Dict.{Dict, Dictht, bucket, index}
use myownproject.Dict.Entries.{DictType, is_key, chain_find, occurs}
use myownproject.Dict.Entries.Laws.{
  is_key_congr, is_key_symm, occurs-eq-zero, chain_find-eq-none, chain_find_congr,
}
use myownproject.Dict.Tables.{home, home_congr}
use myownproject.Dict.Valid.{IsHt, Phase, IsValid, view, Keeps, idle-eq-reset}
use myownproject.Dict.Update.{write, updated-IsHt, updated-find, updated-occurs}

module _ {ℓ} {K V : Type ℓ} ⦃type : DictType K V⦄ where
  -- The dictionary `e` is valid and reads like `d`, but `x` at `key`, for every key.
  pub record Writes (d : Dict K V) (key : K) (x : Option (K × V)) (e : Dict K V) : Type ℓ where
    pub valid : IsValid e
    pub reads : (q : K) → view e q ≡ (if is_key type q key then x else view d q)

  module _ (ht : Dictht K V) (v : IsHt ht) (key : K) (entry : K × V)
      (same : is_key type key entry.0 ≡ true) (pos : 0 < ht.size) where
    abbrev pushed : Dictht K V
    pushed = write ht key (entry ∷ bucket ht key) (ht.used + 1)

    sized : ht.used + 1 + length (bucket ht key) ≡ ht.used + length (entry ∷ bucket ht key)
    sized = omega arith

    same_key : (q : K) → is_key type q key ≡ is_key type q entry.0
    same_key q =
        is_key_symm type q key ∙ is_key_congr type key entry.0 q same ∙ is_key_symm type entry.0 q

    near :
        (q : K)
        → home type ht.sizemask q ≢ home type ht.sizemask key
        → occurs q (entry ∷ bucket ht key) ≡ 0
    unfolding occurs
    near q h =
        ground (arith, same_key q, home_congr type ht.sizemask q key, v.placed q (index ht key))

    pushed-IsHt : IsHt pushed
    pushed-IsHt = updated-IsHt ht v key (entry ∷ bucket ht key) (ht.used + 1) pos sized near

    pushed-find :
        (q : K)
        → chain_find q (bucket pushed q)
          ≡ (if is_key type q key then some entry else chain_find q (bucket ht q))
    unfolding chain_find
    pushed-find =
        updated-find ht v key (entry ∷ bucket ht key) (ht.used + 1) pos sized near (some entry)
          (λ q. rw (same_key q))

    pushed-occurs :
        (q : K)
        → occurs q (bucket pushed q) ≡ occurs q (bucket ht q) + (if is_key type q key then 1 else 0)
    unfolding occurs
    pushed-occurs q = ground (
      arith,
      updated-occurs ht v key (entry ∷ bucket ht key) (ht.used + 1) pos sized near q,
      same_key q,
      home_congr type ht.sizemask q key,
    )

  -- Keys that compare equal have one entry.
  pub view_congr : (d : Dict K V) (a b : K) → is_key type a b ≡ true → view d a ≡ view d b
  unfolding view
  view_congr d a b e =
      rw (home_congr type d.ht0.sizemask a b e, home_congr type d.ht1.sizemask a b e)
        (ap₂ or_else (chain_find_congr a b (bucket d.ht0 b) e)
          (chain_find_congr a b (bucket d.ht1 b) e))

  absent-occurs :
      (d : Dict K V) (key q : K)
      → view d key ≡ none
      → is_key type q key ≡ true
      → (occurs q (bucket d.ht0 q) ≡ 0) × (occurs q (bucket d.ht1 q) ≡ 0)
  unfolding view or_else
  absent-occurs d key q h e =
      let gone = view_congr d q key e ∙ h in
      ground (arith, gone, occurs-eq-zero q (bucket d.ht0 q), occurs-eq-zero q (bucket d.ht1 q))

  abbrev pub added_to_old : Dict K V → K → K × V → Dict K V
  added_to_old d key entry = record d {
    ht0 = write d.ht0 key (entry ∷ bucket d.ht0 key) (d.ht0.used + 1);
  }

  abbrev pub added_to_new : Dict K V → K → K × V → Dict K V
  added_to_new d key entry = record d {
    ht1 = write d.ht1 key (entry ∷ bucket d.ht1 key) (d.ht1.used + 1);
  }

  module _ (d : Dict K V) (v : IsValid d) (key : K) (entry : K × V)
      (same : is_key type key entry.0 ≡ true) (gone : view d key ≡ none) where
    pub added_to_old-Writes :
        d.rehashidx ≡ none → 0 < d.ht0.size → Writes d key (some entry) (added_to_old d key entry)
    unfolding view or_else
    added_to_old-Writes idle pos = record {
      valid = record {
        old = pushed-IsHt d.ht0 v.old key entry same pos;
        new = v.new;
        phase =
            subst (λ o. Phase o (added_to_old d key entry).ht0 d.ht1) (sym idle)
              (idle-eq-reset d.rehashidx d.ht0 d.ht1 idle v.phase);
        once = λ q. ground (
          arith,
          pushed-occurs d.ht0 v.old key entry same pos q,
          absent-occurs d key q gone,
          v.once q,
        );
      };
      reads = λ q. elim (Bool-cases (is_key type q key)) [
        | inl e ↦ rw (pushed-find d.ht0 v.old key entry same pos q, e)
        | inr e ↦ rw (pushed-find d.ht0 v.old key entry same pos q, e)
      ];
    }

    pub added_to_new-Writes :
        (idx : ℕ) → d.rehashidx ≡ some idx → Writes d key (some entry) (added_to_new d key entry)
    unfolding view or_else
    added_to_new-Writes idx busy =
        let p = subst (λ o. Phase o d.ht0 d.ht1) busy v.phase in
        record {
          valid = record {
            old = v.old;
            new = pushed-IsHt d.ht1 v.new key entry same p.2;
            phase = subst (λ o. Phase o d.ht0 (added_to_new d key entry).ht1) (sym busy) p;
            once = λ q. ground (
              arith,
              pushed-occurs d.ht1 v.new key entry same p.2 q,
              absent-occurs d key q gone,
              v.once q,
            );
          };
          reads = λ q. elim (Bool-cases (is_key type q key)) [
            | inl e ↦
                rw (pushed-find d.ht1 v.new key entry same p.2 q, e)
                  (rw (chain_find-eq-none q _ (absent-occurs d key q gone e).0))
            | inr e ↦ rw (pushed-find d.ht1 v.new key entry same p.2 q, e)
          ];
        }

  pub Writes-after :
      {d e f : Dict K V} {key : K} {x : Option (K × V)}
      → Keeps d e
      → Writes e key x f
      → Writes d key x f
  Writes-after {d} {e} {f} {key} {x} k w = record {
    valid = w.valid;
    reads = λ q. w.reads q ∙ ap (λ y. if is_key type q key then x else y) (k.same_view q);
  }
