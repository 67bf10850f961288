-- ===== src/Dict/Move.antt =====
-- One bucket moved by `dictRehash` (src/vr_dict.c): the invariant and the meaning stay.
use mathlib.Core.Option.{or_else}
use mathlib.Core.Path.{subst}
use myownproject.Base.{
  ℕ, zero, suc, ◌+◌, ◌-◌, ◌≤◌, ◌<◌, ◌≡◌, ◌≢◌, ◌⊎◌, ==_iff, refl, none, some, List, [], ◌∷◌, arith,
  length, get_or, set, ◌==◌, length-set, get_or-set, Bool-cases, inl, inr, get_or_past,
  if◌then◌else◌, ◌∙◌, ap, ltb, ltb→lt, ltb→le,
}
use myownproject.Dict.{Dict, Visit, stopped, found, bucket, skip_empty, move_bucket, rehash_bucket}
use myownproject.Dict.Entries.{DictType, Chain, chain_find, occurs}
use myownproject.Dict.Entries.Laws.{chain_find-eq-none}
use myownproject.Dict.Tables.{
  home, total-set, length-le-total, move_table, length-move_table, total-move_table,
  occurs-move_table, chain_find-move_table,
}
use myownproject.Dict.Valid.{IsHt, Phase, IsValid, view, Keeps}

module _ {ℓ} {K V : Type ℓ} where
  abbrev pub EmptyBelow : ℕ → List (Chain K V) → Type ℓ
  EmptyBelow i t = (j : ℕ) → j < i → get_or t j [] ≡ []

  abbrev pub Skipped : Visit → ℕ → ℕ → List (Chain K V) → Type ℓ
  Skipped (stopped i) empty_visits idx t = EmptyBelow i t × (i ≡ idx + empty_visits)
  Skipped (found i left) empty_visits idx t =
      EmptyBelow i t × (get_or t i [] ≢ []) × (idx ≤ i) × (left + i ≤ idx + empty_visits)

  EmptyBelow-suc :
      (t : List (Chain K V)) (i : ℕ) → EmptyBelow i t → get_or t i [] ≡ [] → EmptyBelow (i + 1) t
  EmptyBelow-suc t i h e j p = elim (Bool-cases (j == i)) [
    | inl same ↦ rw ((==_iff j i).0 same) e
    | inr other ↦ h j (ground arith)
  ]

  List-cases : (c : Chain K V) → (c ≡ []) ⊎ (c ≢ [])
  List-cases [] = inl refl
  List-cases (he ∷ c) = inr (λ e. cc)

  skip_empty_full :
      (n : ℕ) (t : List (Chain K V)) (idx : ℕ)
      → get_or t idx [] ≢ []
      → skip_empty (suc n) t idx ≡ found idx (suc n)
  unfolding skip_empty
  skip_empty_full n t idx h = ground arith

  skip_empty_last :
      (t : List (Chain K V)) (idx : ℕ)
      → get_or t idx [] ≡ []
      → skip_empty 1 t idx ≡ stopped (idx + 1)
  unfolding skip_empty
  skip_empty_last t idx h = ground arith

  skip_empty_next :
      (n : ℕ) (t : List (Chain K V)) (idx : ℕ)
      → get_or t idx [] ≡ []
      → skip_empty (suc (suc n)) t idx ≡ skip_empty (suc n) t (idx + 1)
  unfolding skip_empty
  skip_empty_next n t idx h = ground arith

  Skipped-mono :
      (r : Visit) (n idx : ℕ) (t : List (Chain K V))
      → Skipped r n (idx + 1) t
      → Skipped r (suc n) idx t
  Skipped-mono (stopped i) n idx t h = (h.0, omega arith)
  Skipped-mono (found i left) n idx t h = (h.0, h.1, omega arith, omega arith)

  -- What the inner `while` passes over is empty.
  pub skip_empty-Skipped :
      (n : ℕ) (t : List (Chain K V)) (idx : ℕ)
      → EmptyBelow idx t
      → Skipped (skip_empty n t idx) n idx t
  skip_empty-Skipped zero t idx h = unfold skip_empty in (h, omega arith)
  skip_empty-Skipped (suc zero) t idx h = elim (List-cases (get_or t idx [])) [
    | inl e ↦ rw (skip_empty_last t idx e) (EmptyBelow-suc t idx h e, omega arith)
    | inr e ↦ rw (skip_empty_full 0 t idx e) (h, e, omega arith, omega arith)
  ]
  skip_empty-Skipped (suc (suc n)) t idx h = elim (List-cases (get_or t idx [])) [
    | inl e ↦ rw (skip_empty_next n t idx e) (
        Skipped-mono _ (suc n) idx t
          (skip_empty-Skipped (suc n) t (idx + 1) (EmptyBelow-suc t idx h e)))
    | inr e ↦ rw (skip_empty_full (suc n) t idx e) (h, e, omega arith, omega arith)
  ]

module _ {ℓ} {K V : Type ℓ} ⦃type : DictType K V⦄ where
  -- The moves of one bucket, all at once.
  move_bucket_lem :
      (c : Chain K V) (d : Dict K V)
      → move_bucket c d ≡ record d {
        ht0 = record (d.ht0) { used = d.ht0.used - length c };
        ht1 = record (d.ht1) {
          table = move_table d.ht1.sizemask c d.ht1.table;
          used = d.ht1.used + length c;
        };
      }
  unfolding move_bucket move_table
  move_bucket_lem [] d = ground arith
  move_bucket_lem (he ∷ c) d = move_bucket_lem c _ ∙ ground arith

  module _ (d : Dict K V) (v : IsValid d) (idx i : ℕ) (busy : d.rehashidx ≡ some idx)
      (below : EmptyBelow i d.ht0.table) (full : get_or d.ht0.table i [] ≢ []) where
    in_table : i < length d.ht0.table
    in_table = elim (Bool-cases (ltb i (length d.ht0.table))) [
      | inl h ↦ ltb→lt _ _ h
      | inr h ↦ absurd (full (get_or_past d.ht0.table i [] (ltb→le _ _ h)))
    ]

    abbrev moved : Dict K V
    moved =
        let c = get_or d.ht0.table i [] in
        record d {
          ht0 = record (d.ht0) { table = set d.ht0.table i []; used = d.ht0.used - length c };
          ht1 = record (d.ht1) {
            table = move_table d.ht1.sizemask c d.ht1.table;
            used = d.ht1.used + length c;
          };
          rehashidx = some (i + 1);
        }

    rehash_bucket_lem : rehash_bucket d i ≡ moved
    unfolding rehash_bucket
    rehash_bucket_lem = rw (move_bucket_lem (get_or d.ht0.table i []) d)

    progress : Phase (some idx) d.ht0 d.ht1
    progress = subst (λ o. Phase o d.ht0 d.ht1) busy v.phase

    new_wide : d.ht1.sizemask < length d.ht1.table
    new_wide = omega (arith, progress.2, v.new.width, v.new.mask)

    no_entry : (q : K) → occurs {V = V} q [] ≡ 0
    unfolding occurs
    no_entry q = refl

    old_bucket :
        (j : ℕ)
        → get_or (set d.ht0.table i []) j [] ≡ (if i == j then [] else get_or d.ht0.table j [])
    old_bucket j = get_or-set d.ht0.table i j [] [] in_table

    moved-old : IsHt moved.ht0
    moved-old = record {
      width = length-set d.ht0.table i [] ∙ v.old.width;
      mask = v.old.mask;
      counted = omega (arith, v.old.counted, total-set d.ht0.table i [] in_table);
      placed = λ q j h. ground (arith, old_bucket j, v.old.placed q j, no_entry q);
    }

    moved-new : IsHt moved.ht1
    moved-new = record {
      width = length-move_table _ _ d.ht1.table ∙ v.new.width;
      mask = v.new.mask;
      counted = omega (
        arith,
        v.new.counted,
        total-move_table d.ht1.sizemask (get_or d.ht0.table i []) d.ht1.table new_wide,
      );
      placed = λ q j h. ground (
        arith,
        occurs-move_table d.ht1.sizemask (get_or d.ht0.table i []) d.ht1.table q j new_wide,
        v.new.placed q j,
      );
    }

    abbrev moving : Chain K V
    moving = get_or d.ht0.table i []

    -- A key of the bucket is counted in its new place, any other where it was.
    new_occurs :
        (q : K) → occurs q (bucket moved.ht1 q) ≡ occurs q (bucket d.ht1 q) + occurs q moving
    new_occurs q = ground (
      arith,
      occurs-move_table d.ht1.sizemask moving d.ht1.table q (home type d.ht1.sizemask q) new_wide,
    )

    moved-once : (q : K) → occurs q (bucket moved.ht0 q) + occurs q (bucket moved.ht1 q) ≤ 1
    moved-once q = ground (
      arith,
      new_occurs q,
      old_bucket (home type d.ht0.sizemask q),
      no_entry q,
      v.once q,
      v.old.placed q i,
    )

    -- At most one entry has the key, so the order in the new bucket does not matter.
    few : (q : K) → occurs q moving + occurs q (bucket d.ht1 q) ≤ 1
    few q = ground (arith, v.once q, v.old.placed q i)

    new_find :
        (q : K)
        → chain_find q (bucket moved.ht1 q)
          ≡ or_else (chain_find q moving) (chain_find q (bucket d.ht1 q))
    new_find q = chain_find-move_table d.ht1.sizemask moving d.ht1.table q new_wide (few q)

    moved-view : (q : K) → view moved q ≡ view d q
    unfolding view or_else chain_find
    moved-view q =
        let h = home type d.ht0.sizemask q in
        elim (Bool-cases (i == h)) [
          | inl e ↦
              rw (old_bucket h, e)
                (new_find q
                  ∙ ap
                      (λ k.
                        or_else (chain_find q (get_or d.ht0.table k []))
                          (chain_find q (bucket d.ht1 q)))
                      ((==_iff i h).0 e))
          | inr e ↦
              let gone : chain_find q moving ≡ none =
                chain_find-eq-none q moving (v.old.placed q i (ground arith)) in
              rw (old_bucket h, e)
                (ap (or_else (chain_find q (bucket d.ht0 q))) (new_find q ∙ rw gone))
        ]

    below_after : EmptyBelow (i + 1) (set d.ht0.table i [])
    below_after j p = elim (Bool-cases (i == j)) [
      | inl e ↦ rw (old_bucket j, e)
      | inr e ↦ rw (old_bucket j, e) (below j (ground arith))
    ]

    pub rehash_bucket-Keeps : Keeps d (rehash_bucket d i)
    rehash_bucket-Keeps = rw rehash_bucket_lem (record {
      valid = record {
        old = moved-old;
        new = moved-new;
        phase =
            (omega (arith, in_table, v.old.width), progress.1, progress.2, λ j p. below_after j p);
        once = moved-once;
      };
      same_view = moved-view;
      same_size = omega (arith, length-le-total d.ht0.table i, v.old.counted);
      same_iterators = refl;
    })

    pub size-rehash_bucket : (rehash_bucket d i).ht0.size ≡ d.ht0.size
    size-rehash_bucket = rw rehash_bucket_lem
