-- ===== src/Dict/Rehash.antt =====
-- `dictRehash` (src/vr_dict.c) as a whole: what it keeps, and that it gets to the end.
use mathlib.Core.Option.{or_else}
use mathlib.Core.Path.{subst}
use myownproject.Base.{
  ℕ, zero, suc, ◌+◌, ◌*◌, ◌≤◌, ◌≡◌, ◌≢◌, refl, Bool, true, false, Option, none, some, arith, ◌==◌,
  ==_iff, Bool-cases, Option-cases, inl, inr, ◌∙◌, ltb, ltb→lt, ltb→le,
}
use myownproject.Dict.{
  Dict, Visit, stopped, found, reset, is_rehashing, skip_empty, rehash_bucket, rehash_loop, rehash,
  rehash_step, finish, rehash_if_busy,
}
use myownproject.Dict.Entries.{DictType, chain_find, occurs}
use myownproject.Dict.Tables.{total_empty}
use myownproject.Dict.Valid.{
  IsHt, Phase, IsValid, view, Keeps, Keeps-refl, Keeps-trans, chain_find_unused, create-IsValid,
}
use myownproject.Dict.Move.{EmptyBelow, Skipped, skip_empty-Skipped, rehash_bucket-Keeps}

pub or_else-none {ℓ} : {A : Type ℓ} (o : Option A) → or_else o none ≡ o
unfolding or_else
or_else-none none = refl
or_else-none (some a) = refl

module _ {ℓ} {K V : Type ℓ} ⦃type : DictType K V⦄ where
  pub busy-Phase :
      (d : Dict K V) (idx : ℕ) → IsValid d → d.rehashidx ≡ some idx → Phase (some idx) d.ht0 d.ht1
  busy-Phase d idx v busy = subst (λ o. Phase o d.ht0 d.ht1) busy v.phase

  promote-Keeps :
      (d : Dict K V)
      → IsValid d
      → d.ht0.used ≡ 0
      → Keeps d (record d { ht0 = d.ht1; ht1 = reset; rehashidx = none })
  unfolding view or_else chain_find occurs
  promote-Keeps d v e = record {
    valid = record {
      old = v.new;
      new = (create-IsValid type).new;
      phase = refl;
      once = λ q. omega (arith, v.once q);
    };
    same_view = λ q. or_else-none _ ∙ rw (chain_find_unused d.ht0 q v.old e);
    same_size = omega arith;
    same_iterators = refl;
  }

  finish-Keeps : (d : Dict K V) → IsValid d → Keeps d (finish d).0
  unfolding finish
  finish-Keeps d v = elim (Bool-cases (d.ht0.used == 0)) [
    | inl e ↦ rw e (promote-Keeps d v ((==_iff _ 0).0 e))
    | inr e ↦ rw e (Keeps-refl v)
  ]

  -- Buckets past which entries remain lie inside the table, so `rehashidx` cannot run over it.
  pub below_size :
      (d : Dict K V) (i : ℕ)
      → IsHt d.ht0
      → EmptyBelow i d.ht0.table
      → d.ht0.used ≢ 0
      → i ≤ d.ht0.size
  below_size d i h below more = elim (Bool-cases (ltb d.ht0.size i)) [
    | inl e ↦ absurd (
        more (
          h.counted
          ∙ total_empty d.ht0.table
              (λ j p. below j (omega (arith, h.width, ltb→lt d.ht0.size i e)))))
    | inr e ↦ ltb→le _ _ e
  ]

  stopped-Keeps :
      (d : Dict K V) (idx i : ℕ)
      → IsValid d
      → d.rehashidx ≡ some idx
      → EmptyBelow i d.ht0.table
      → d.ht0.used ≢ 0
      → Keeps d (record d { rehashidx = some i })
  unfolding view
  stopped-Keeps d idx i v busy below more =
      let p = busy-Phase d idx v busy in
      record {
        valid = record {
          old = v.old;
          new = v.new;
          phase = (below_size d i v.old below more, p.1, p.2, below);
          once = v.once;
        };
        same_view = λ q. refl;
        same_size = refl;
        same_iterators = refl;
      }

  pub rehash_bucket-rehashidx :
      (d : Dict K V) (i : ℕ) → (rehash_bucket d i).rehashidx ≡ some (i + 1)
  unfolding rehash_bucket
  rehash_bucket-rehashidx d i = refl

  unfoldable pub visit : ℕ → Dict K V → Visit → Dict K V × Bool
  visit n d (stopped i) = (record d { rehashidx = some i }, true)
  visit n d (found i left) = rehash_loop n left (i + 1) (rehash_bucket d i)

  -- One round of the outer `while`, once there is something to move.
  pub rehash_loop-suc :
      (n m idx : ℕ) (d : Dict K V)
      → (d.ht0.used == 0) ≡ false
      → rehash_loop (suc n) m idx d ≡ visit n d (skip_empty m d.ht0.table idx)
  unfolding rehash_loop visit
  rehash_loop-suc n m idx d e = ground arith

  pub rehash_loop_done :
      (n m idx : ℕ) (d : Dict K V)
      → (d.ht0.used == 0) ≡ true
      → rehash_loop (suc n) m idx d ≡ finish d
  unfolding rehash_loop
  rehash_loop_done n m idx d e = ground arith

  pub rehash_loop-Keeps :
      (n m idx : ℕ) (d : Dict K V)
      → IsValid d
      → d.rehashidx ≡ some idx
      → Keeps d (rehash_loop n m idx d).0
  rehash_loop-Keeps zero m idx d v busy = unfold rehash_loop in finish-Keeps d v
  rehash_loop-Keeps (suc n) m idx d v busy = elim (Bool-cases (d.ht0.used == 0)) [
    | inl e ↦ rw (rehash_loop_done n m idx d e) (finish-Keeps d v)
    | inr e ↦ rw (rehash_loop-suc n m idx d e) (
        go (skip_empty m d.ht0.table idx)
          (skip_empty-Skipped m d.ht0.table idx (busy-Phase d idx v busy).3) (ground arith)
          (λ i left. rehash_loop-Keeps n left (i + 1) (rehash_bucket d i)))
  ]
    where
      go :
          (r : Visit)
          → Skipped r m idx d.ht0.table
          → d.ht0.used ≢ 0
          → ((i left : ℕ)
              → IsValid (rehash_bucket d i)
              → (rehash_bucket d i).rehashidx ≡ some (i + 1)
              → Keeps (rehash_bucket d i) (rehash_loop n left (i + 1) (rehash_bucket d i)).0)
          → Keeps d (visit n d r).0
      go (stopped i) s more rest = unfold visit in stopped-Keeps d idx i v busy s.0 more
      go (found i left) s more rest =
          let k = rehash_bucket-Keeps d v idx i busy s.0 s.1 in
          unfold visit in Keeps-trans k (rest i left k.valid (rehash_bucket-rehashidx d i))

  pub rehash_idle : (d : Dict K V) (n : ℕ) → d.rehashidx ≡ none → rehash d n ≡ (d, false)
  unfolding rehash
  rehash_idle d n e = ground arith

  pub rehash_busy :
      (d : Dict K V) (n idx : ℕ)
      → d.rehashidx ≡ some idx
      → rehash d n ≡ rehash_loop n (n * 10) idx d
  unfolding rehash
  rehash_busy d n idx e = ground arith

  -- Rehashing moves entries between the tables and keeps the invariant, the entry of every key, the
  -- number of entries and the count of iterators, however many steps are asked for.
  pub rehash-Keeps : (d : Dict K V) (n : ℕ) → IsValid d → Keeps d (rehash d n).0
  rehash-Keeps d n v = elim (Option-cases d.rehashidx) [
    | inl e ↦ rw (rehash_idle d n e) (Keeps-refl v)
    | inr (idx, e) ↦ rw (rehash_busy d n idx e) (rehash_loop-Keeps n (n * 10) idx d v e)
  ]

  pub rehash_if_busy-Keeps : (d : Dict K V) → IsValid d → Keeps d (rehash_if_busy d)
  unfolding rehash_step
  rehash_if_busy-Keeps d v = elim (Bool-cases (is_rehashing d)) [
    | inl e ↦ rw e (elim (Bool-cases (d.iterators == 0)) [
      | inl f ↦ rw f (rehash-Keeps d 1 v)
      | inr f ↦ rw f (Keeps-refl v)
    ])
    | inr e ↦ rw e (Keeps-refl v)
  ]
