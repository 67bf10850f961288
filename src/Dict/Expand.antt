-- ===== src/Dict/Expand.antt =====
-- `dictExpand`, `_dictNextPower` and `_dictExpandIfNeeded` (src/vr_dict.c).
use mathlib.Core.Path.{subst}
use native.Mathlib.Nat.{pow-suc}
use myownproject.Base.{
  ℕ, zero, suc, ◌-◌, ◌*◌, ◌/◌, ◌^◌, ◌≤◌, ◌<◌, ◌≡◌, ◌≢◌, ◌⊎◌, refl, Bool, true, false, Option, none,
  some, List, [], ◌∷◌, ◌&&◌, ◌||◌, arith, length, ◌==◌, ==_iff, Bool-cases, inl, inr,
  length-replicate, get_or-replicate, replicate, if◌then◌else◌, ap, sym, ltb, leb,
}
use myownproject.Dict.{
  Dict, Dictht, bucket, is_rehashing, next_power_loop, next_power, expand, expand_if_needed,
  initial_size, long_max, force_resize_ratio, is_null,
}
use myownproject.Dict.Entries.{DictType, Chain, occurs}
use myownproject.Dict.Tables.{total, total-replicate}
use myownproject.Dict.Valid.{IsHt, Phase, IsValid, view, Keeps, Keeps-refl, idle-eq-reset}

-- `r` is the first of `i`, `2 * i`, `4 * i`, … that is at least `size`.
pub record IsNextPower (i size r : ℕ) : Type 0 where
  pub k : ℕ
  pub power : r ≡ i * 2 ^ k
  pub fits : size ≤ r
  pub least : (r ≡ i) ⊎ (r < 2 * size)

doubled : (i n : ℕ) → i * 2 ^ suc n ≡ i * 2 * 2 ^ n
doubled i n = omega (arith, ap (λ (t : ℕ). i * t) (pow-suc 2 n))

next_power_loop_lem :
    (n i size : ℕ) → size ≤ i * 2 ^ n → IsNextPower i size (next_power_loop n i size)
unfolding next_power_loop
next_power_loop_lem zero i size h = record {
  k = 0;
  power = omega arith;
  fits = omega arith;
  least = inl refl;
}
next_power_loop_lem (suc n) i size h = elim (Bool-cases (leb size i)) [
  | inl e ↦ rw e (record { k = 0; power = omega arith; fits = ground arith; least = inl refl })
  | inr e ↦
      let r = next_power_loop_lem n (i * 2) size (omega (arith, doubled i n)) in
      rw e (record {
        k = suc r.k;
        power = omega (arith, r.power, doubled i r.k);
        fits = r.fits;
        least = inr (elim r.least [ inl f ↦ ground (arith, f) | inr f ↦ f ]);
      })
]

-- The size of a table is the least power of two from 4 on that holds `size` entries.
pub next_power_lem : (size : ℕ) → size < long_max → IsNextPower initial_size size (next_power size)
unfolding next_power
next_power_lem size h =
    let small : leb long_max size ≡ false = ground arith in
    rw small (next_power_loop_lem 61 initial_size size (omega arith))

-- Also past LONG_MAX no table has fewer than two buckets.
next_power_loop_pos : (n i size : ℕ) → 0 < i → 0 < next_power_loop n i size
unfolding next_power_loop
next_power_loop_pos zero i size h = h
next_power_loop_pos (suc n) i size h = ground (arith, next_power_loop_pos n (i * 2) size)

next_power_pos : (size : ℕ) → 0 < next_power size
unfolding next_power
next_power_pos size = ground (arith, next_power_loop_pos 61 initial_size size)

pub idle_of : (o : Option ℕ) → (elim o [ none ↦ false | some _ ↦ true ]) ≡ false → o ≡ none
idle_of o h = ground arith

no_entry {ℓ} : {K V : Type ℓ} (type : DictType K V) (q : K) → occurs ⦃type = type⦄ q [] ≡ 0
unfolding occurs
no_entry type q = refl

module _ {ℓ} {K V : Type ℓ} ⦃type : DictType K V⦄ where
  abbrev pub fresh : ℕ → Dictht K V
  fresh size = record { table = replicate size []; size = size; sizemask = size - 1; used = 0 }

  fresh-bucket : (n : ℕ) (q : K) → bucket (fresh n) q ≡ []
  fresh-bucket n q = get_or-replicate n _ []

  fresh-IsHt : (n : ℕ) → IsHt (fresh n)
  fresh-IsHt n = record {
    width = length-replicate n [];
    mask = refl;
    counted = sym (total-replicate (K × V) n);
    placed = λ q i h. rw (get_or-replicate {A = Chain K V} n i []) (no_entry type q);
  }

  -- The first table of a dictionary that has none yet.
  first-Keeps :
      (d : Dict K V) (n : ℕ)
      → IsValid d
      → d.rehashidx ≡ none
      → d.ht0.table ≡ []
      → Keeps d (record d { ht0 = fresh n })
  unfolding view total
  first-Keeps d n v idle e = record {
    valid = record {
      old = fresh-IsHt n;
      new = v.new;
      phase =
          subst (λ o. Phase o (fresh n) d.ht1) (sym idle)
            (idle-eq-reset d.rehashidx d.ht0 d.ht1 idle v.phase);
      once = λ q. rw (fresh-bucket n q) (omega (arith, no_entry type q, v.once q));
    };
    same_view = λ q. rw (fresh-bucket n q, e);
    same_size = omega (arith, v.old.counted, ap total e);
    same_iterators = refl;
  }

  pub second-Keeps :
      (d : Dict K V) (n : ℕ)
      → IsValid d
      → d.rehashidx ≡ none
      → 0 < d.ht0.size
      → 0 < n
      → Keeps d (record d { ht1 = fresh n; rehashidx = some 0 })
  unfolding view
  second-Keeps d n v idle pos h =
      let e = idle-eq-reset d.rehashidx d.ht0 d.ht1 idle v.phase in
      record {
        valid = record {
          old = v.old;
          new = fresh-IsHt n;
          phase = (omega arith, pos, h, λ j p. absurd (omega arith));
          once = λ q. rw (fresh-bucket n q) (omega (arith, no_entry type q, v.once q));
        };
        same_view = λ q. rw (fresh-bucket n q, ap (λ t. bucket t q) e);
        same_size = omega (arith, ap (λ (t : Dictht K V). t.used) e);
        same_iterators = refl;
      }

  expand_first :
      (d : Dict K V) (size : ℕ)
      → is_rehashing d ≡ false
      → ltb size d.ht0.used ≡ false
      → (next_power size == d.ht0.size) ≡ false
      → is_null d.ht0.table ≡ true
      → expand d size ≡ some (record d { ht0 = fresh (next_power size) })
  unfolding expand
  expand_first d size a b c e = rw (a, b, c, e)

  expand_second :
      (d : Dict K V) (size : ℕ)
      → is_rehashing d ≡ false
      → ltb size d.ht0.used ≡ false
      → (next_power size == d.ht0.size) ≡ false
      → is_null d.ht0.table ≡ false
      → expand d size ≡ some (record d { ht1 = fresh (next_power size); rehashidx = some 0 })
  unfolding expand
  expand_second d size a b c e = rw (a, b, c, e)

  abbrev pub Expanded : Dict K V → Option (Dict K V) → Type ℓ
  Expanded d r = (e : Dict K V) × (r ≡ some e) × Keeps d e × (0 < e.ht0.size)

  -- `dictExpand` changes nothing that a lookup can see, whether it makes the first table or starts
  -- a rehash.
  pub expand-Expanded :
      (d : Dict K V) (size : ℕ)
      → IsValid d
      → is_rehashing d ≡ false
      → d.ht0.used ≤ size
      → next_power size ≢ d.ht0.size
      → Expanded d (expand d size)
  expand-Expanded d size v idle fits other =
      let a : ltb size d.ht0.used ≡ false = ground arith in
      let b : (next_power size == d.ht0.size) ≡ false = ground arith in
      let o : d.rehashidx ≡ none = idle_of d.rehashidx idle in
      let w : length d.ht0.table ≡ d.ht0.size = v.old.width in
      elim (Bool-cases (is_null d.ht0.table)) [
        | inl e ↦ (
          record d { ht0 = fresh (next_power size) },
          expand_first d size idle a b e,
          first-Keeps d (next_power size) v o (null d.ht0.table e),
          next_power_pos size,
        )
        | inr e ↦ (
          record d { ht1 = fresh (next_power size); rehashidx = some 0 },
          expand_second d size idle a b e,
          second-Keeps d (next_power size) v o (omega (arith, w, filled d.ht0.table e))
              (next_power_pos size),
          omega (arith, w, filled d.ht0.table e),
        )
      ]
    where
      null : (t : List (Chain K V)) → is_null t ≡ true → t ≡ []
      null [] h = refl
      null (c ∷ t) h = cc

      filled : (t : List (Chain K V)) → is_null t ≡ false → 0 < length t
      filled [] h = ground arith
      filled (c ∷ t) h = omega arith

  expand_if_needed_busy :
      (b : Bool) (d : Dict K V) → is_rehashing d ≡ true → expand_if_needed b d ≡ some d
  unfolding expand_if_needed
  expand_if_needed_busy b d h = rw h

  expand_if_needed_empty :
      (b : Bool) (d : Dict K V)
      → is_rehashing d ≡ false
      → (d.ht0.size == 0) ≡ true
      → expand_if_needed b d ≡ expand d initial_size
  unfolding expand_if_needed
  expand_if_needed_empty b d h e = rw (h, e)

  crowded : Bool → Dict K V → Bool
  crowded can_resize d =
      leb d.ht0.size d.ht0.used && (can_resize || ltb force_resize_ratio (d.ht0.used / d.ht0.size))

  expand_if_needed-crowded :
      (b : Bool) (d : Dict K V)
      → is_rehashing d ≡ false
      → (d.ht0.size == 0) ≡ false
      → expand_if_needed b d ≡ (if crowded b d then expand d (d.ht0.used * 2) else some d)
  unfolding expand_if_needed crowded
  expand_if_needed-crowded b d h e = rw (h, e)

  crowded-le : (b : Bool) (d : Dict K V) → crowded b d ≡ true → d.ht0.size ≤ d.ht0.used
  unfolding crowded
  crowded-le b d h = ground arith

  -- `_dictExpandIfNeeded` never fails while the table is below half of LONG_MAX, so a failed
  -- `_dictKeyIndex` means that the key is there. After it the first table has buckets.
  pub expand_if_needed-Expanded :
      (b : Bool) (d : Dict K V)
      → IsValid d
      → d.ht0.used * 2 < long_max
      → Expanded d (expand_if_needed b d)
  unfolding total
  expand_if_needed-Expanded b d v small = elim (Bool-cases (is_rehashing d)) [
    | inl h ↦ (d, expand_if_needed_busy b d h, Keeps-refl v, busy_pos d.rehashidx h v.phase)
    | inr h ↦ elim (Bool-cases (d.ht0.size == 0)) [
      | inl e ↦
          let r = next_power_lem initial_size (omega arith) in
          rw (expand_if_needed_empty b d h e) (
            expand-Expanded d initial_size v h
              (omega (arith, v.old.counted, none_used d.ht0.table, v.old.width, (==_iff _ 0).0 e))
              (omega (arith, (==_iff _ 0).0 e, r.fits)))
      | inr e ↦ elim (Bool-cases (crowded b d)) [
        | inl f ↦
            let r = next_power_lem (d.ht0.used * 2) small in
            let more = crowded-le b d f in
            let pos : 0 < d.ht0.size = ground arith in
            rw (expand_if_needed-crowded b d h e, f)
              (expand-Expanded d (d.ht0.used * 2) v h (omega arith) (omega (arith, r.fits)))
        | inr f ↦ (d, rw (expand_if_needed-crowded b d h e, f), Keeps-refl v, ground arith)
      ]
    ]
  ]
    where
      busy_pos :
          (o : Option ℕ)
          → (elim o [ none ↦ false | some _ ↦ true ]) ≡ true
          → Phase o d.ht0 d.ht1
          → 0 < d.ht0.size
      busy_pos none h p = ground arith
      busy_pos (some idx) h p = p.1

      none_used : (t : List (Chain K V)) → length t ≡ 0 → total t ≡ 0
      none_used [] h = refl
      none_used (c ∷ t) h = absurd (omega arith)
