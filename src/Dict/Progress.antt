-- ===== src/Dict/Progress.antt =====
-- Rehashing gets to the end: every call of `dictRehash` moves `rehashidx` on, up to the size of the
-- old table.
use myownproject.Base.{
  ℕ, zero, suc, ◌+◌, ◌-◌, ◌*◌, ◌≤◌, ◌<◌, ◌≡◌, ◌≢◌, refl, true, false, Option, none, some, List, [],
  ◌∷◌, arith, length, ◌==◌, Bool-cases, Option-cases, inl, inr, sym,
}
use myownproject.Dict.{
  Dict, Visit, stopped, found, is_rehashing, skip_empty, rehash_bucket, rehash_loop, rehash, finish,
  rehash_milliseconds,
}
use myownproject.Dict.Entries.{DictType}
use myownproject.Dict.Valid.{IsValid}
use myownproject.Dict.Move.{Skipped, skip_empty-Skipped, rehash_bucket-Keeps, size-rehash_bucket}
use myownproject.Dict.Rehash.{
  busy-Phase, visit, rehash_loop-suc, rehash_loop_done, rehash_bucket-rehashidx, rehash_busy,
  rehash_idle, rehash-Keeps,
}

-- Every reading is within the limit.
abbrev pub AllWithin : ℕ → List ℕ → Type 0
AllWithin ms [] = Unit
AllWithin ms (elapsed ∷ clock) = (elapsed ≤ ms) × AllWithin ms clock

unfoldable remaining_from : Option ℕ → ℕ → ℕ
remaining_from none size = 0
remaining_from (some idx) size = suc size - idx

module _ {ℓ} {K V : Type ℓ} where
  -- How many buckets may still be moved, and one for the end; 0 where no rehash goes on.
  unfoldable pub remaining : Dict K V → ℕ
  unfolding remaining_from
  remaining d = remaining_from d.rehashidx d.ht0.size

  remaining-some :
      (d : Dict K V) (idx : ℕ) → d.rehashidx ≡ some idx → remaining d ≡ suc d.ht0.size - idx
  unfolding remaining
  remaining-some d idx e = ground arith

  is_rehashing_idle : (d : Dict K V) → d.rehashidx ≡ none → is_rehashing d ≡ false
  is_rehashing_idle d e = ground arith

module _ {ℓ} {K V : Type ℓ} ⦃type : DictType K V⦄ where
  finish-le :
      (d : Dict K V) (idx : ℕ)
      → d.rehashidx ≡ some idx
      → idx ≤ d.ht0.size
      → remaining (finish d).0 + idx ≤ suc d.ht0.size
  unfolding finish remaining
  finish-le d idx e h = ground (arith, remaining-some d idx e)

  -- A visit gets further by one bucket at least.
  visit-lt :
      (n m idx : ℕ) (d : Dict K V) (v : IsValid d) (busy : d.rehashidx ≡ some idx)
      → d.ht0.used ≢ 0
      → ((left i : ℕ) (e : Dict K V)
          → IsValid e
          → e.rehashidx ≡ some i
          → remaining (rehash_loop n left i e).0 + i ≤ suc e.ht0.size)
      → (r : Visit) → Skipped r m idx d.ht0.table
      → (remaining (visit n d r).0 + idx ≤ suc d.ht0.size)
        × (0 < m → remaining (visit n d r).0 + idx < suc d.ht0.size)
  unfolding visit remaining
  visit-lt n m idx d v busy more rest (stopped i) s =
      let p = (busy-Phase d idx v busy).0 in (omega arith, λ h. omega arith)
  visit-lt n m idx d v busy more rest (found i left) s =
      let k = rehash_bucket-Keeps d v idx i busy s.0 s.1 in
      let b = rest left (i + 1) (rehash_bucket d i) k.valid (rehash_bucket-rehashidx d i) in
      let w = size-rehash_bucket d v idx i busy s.0 s.1 in (omega arith, λ h. omega arith)

  rehash_loop-le :
      (n m idx : ℕ) (d : Dict K V)
      → IsValid d
      → d.rehashidx ≡ some idx
      → remaining (rehash_loop n m idx d).0 + idx ≤ suc d.ht0.size
  rehash_loop-le zero m idx d v busy =
      unfold rehash_loop in finish-le d idx busy (busy-Phase d idx v busy).0
  rehash_loop-le (suc n) m idx d v busy = elim (Bool-cases (d.ht0.used == 0)) [
    | inl e ↦ rw (rehash_loop_done n m idx d e) (finish-le d idx busy (busy-Phase d idx v busy).0)
    | inr e ↦
        rw (rehash_loop-suc n m idx d e)
          (visit-lt n m idx d v busy (ground arith) (λ left i f. rehash_loop-le n left i f)
            (skip_empty m d.ht0.table idx)
            (skip_empty-Skipped m d.ht0.table idx (busy-Phase d idx v busy).3)).0
  ]

  rehash_loop-lt :
      (n m idx : ℕ) (d : Dict K V)
      → IsValid d
      → d.rehashidx ≡ some idx
      → 0 < m
      → remaining (rehash_loop (suc n) m idx d).0 < remaining d
  rehash_loop-lt n m idx d v busy h =
      let p = (busy-Phase d idx v busy).0 in
      let was = remaining-some d idx busy in
      elim (Bool-cases (d.ht0.used == 0)) [
        | inl e ↦
            rw (rehash_loop_done n m idx d e)
              (unfold finish in rw e (unfold remaining in omega arith))
        | inr e ↦ rw (rehash_loop-suc n m idx d e) (
            omega (
              arith,
              (visit-lt n m idx d v busy (ground arith) (λ left i f. rehash_loop-le n left i f)
                    (skip_empty m d.ht0.table idx)
                    (skip_empty-Skipped m d.ht0.table idx (busy-Phase d idx v busy).3)).1
                  h,
            ))
      ]

  -- While a rehash goes on, every call of `dictRehash` for at least one step leaves fewer buckets.
  pub rehash-lt :
      (d : Dict K V) (n : ℕ)
      → IsValid d
      → is_rehashing d ≡ true
      → remaining (rehash d (suc n)).0 < remaining d
  rehash-lt d n v busy = elim (Option-cases d.rehashidx) [
    | inl e ↦ ground arith
    | inr (idx, e) ↦
        rw (rehash_busy d (suc n) idx e) (rehash_loop-lt n (suc n * 10) idx d v e (omega arith))
  ]

  finish_flag :
      (d : Dict K V) (idx : ℕ) → d.rehashidx ≡ some idx → (finish d).1 ≡ is_rehashing (finish d).0
  unfolding finish
  finish_flag d idx busy = ground arith

  rehash_loop_flag :
      (n m idx : ℕ) (d : Dict K V)
      → d.rehashidx ≡ some idx
      → (rehash_loop n m idx d).1 ≡ is_rehashing (rehash_loop n m idx d).0
  rehash_loop_flag zero m idx d busy = unfold rehash_loop in finish_flag d idx busy
  rehash_loop_flag (suc n) m idx d busy = elim (Bool-cases (d.ht0.used == 0)) [
    | inl e ↦ rw (rehash_loop_done n m idx d e) (finish_flag d idx busy)
    | inr e ↦
        rw (rehash_loop-suc n m idx d e)
          (go (skip_empty m d.ht0.table idx) (λ left i f. rehash_loop_flag n left i f))
  ]
    where
      go :
          (r : Visit)
          → ((left i : ℕ) (e : Dict K V)
              → e.rehashidx ≡ some i
              → (rehash_loop n left i e).1 ≡ is_rehashing (rehash_loop n left i e).0)
          → (visit n d r).1 ≡ is_rehashing (visit n d r).0
      go (stopped i) rest = unfold visit in refl
      go (found i left) rest =
          unfold visit in rest left (i + 1) (rehash_bucket d i) (rehash_bucket-rehashidx d i)

  -- The result of `dictRehash` says whether the rehash still goes on.
  pub rehash_flag : (d : Dict K V) (n : ℕ) → (rehash d n).1 ≡ is_rehashing (rehash d n).0
  rehash_flag d n = elim (Option-cases d.rehashidx) [
    | inl e ↦ rw (rehash_idle d n e) (sym (is_rehashing_idle d e))
    | inr (idx, e) ↦ rw (rehash_busy d n idx e) (rehash_loop_flag n (n * 10) idx d e)
  ]

  -- `dictRehashMilliseconds` finishes a rehash that goes on if its clock has at least two more readings
  -- than there are buckets from `rehashidx` on, and all of them are within `ms`; where no rehash goes
  -- on, one reading within `ms` is enough.
  pub rehash_milliseconds_finishes :
      (d : Dict K V) (ms : ℕ) (clock : List ℕ)
      → IsValid d
      → AllWithin ms clock
      → remaining d < length clock
      → is_rehashing (rehash_milliseconds d ms clock).0 ≡ false
  unfolding rehash_milliseconds
  rehash_milliseconds_finishes d ms [] v fast h = absurd (omega arith)
  rehash_milliseconds_finishes d ms (elapsed ∷ clock) v fast h =
      elim (Bool-cases (is_rehashing (rehash d 100).0)) [
        | inl e ↦
            let busy : is_rehashing d ≡ true = still_busy d e in
            ground (
              arith,
              rehash_flag d 100,
              rehash-lt d 99 v busy,
              rehash_milliseconds_finishes (rehash d 100).0 ms clock (rehash-Keeps d 100 v).valid,
            )
        | inr e ↦ ground (arith, rehash_flag d 100)
      ]
    where
      still_busy : (d : Dict K V) → is_rehashing (rehash d 100).0 ≡ true → is_rehashing d ≡ true
      still_busy d e = elim (Option-cases d.rehashidx) [
        | inl f ↦ ground (arith, rehash_idle d 100 f, is_rehashing_idle d f)
        | inr (idx, f) ↦ ground arith
      ]
