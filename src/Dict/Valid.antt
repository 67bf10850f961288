-- ===== src/Dict/Valid.antt =====
-- The representation invariant of the dictionary, and the map from keys to entries that it means.
use mathlib.Core.Option.{or_else}
use myownproject.Base.{
  ℕ, ◌+◌, ◌-◌, ◌≤◌, ◌<◌, ◌≡◌, refl, Option, none, some, [], arith, ◌∙◌, length, get_or,
}
use myownproject.Dict.{Dict, Dictht, reset, create, bucket, find, dict_size}
use myownproject.Dict.Entries.{DictType, chain_find, occurs}
use myownproject.Dict.Entries.Laws.{chain_find-eq-none, occurs-le-length}
use myownproject.Dict.Tables.{home, total, length-le-total, IsPlaced}

module _ {ℓ} {K V : Type ℓ} ⦃type : DictType K V⦄ where
  -- One table: its size, its mask, its count of entries, and every entry in its bucket.
  pub record IsHt (ht : Dictht K V) : Type ℓ where
    pub width : length ht.table ≡ ht.size
    pub mask : ht.sizemask ≡ ht.size - 1
    pub counted : ht.used ≡ total ht.table
    pub placed : IsPlaced ht.sizemask ht.table

  -- The second table is unused, or the buckets below `rehashidx` of the first have been moved to it.
  abbrev pub Phase : Option ℕ → Dictht K V → Dictht K V → Type ℓ
  Phase none old new = new ≡ reset
  Phase (some idx) old new =
      (idx ≤ old.size)
      × (0 < old.size)
      × (0 < new.size)
      × ((j : ℕ) → j < idx → get_or old.table j [] ≡ [])

  pub record IsValid (d : Dict K V) : Type ℓ where
    pub old : IsHt d.ht0
    pub new : IsHt d.ht1
    pub phase : Phase d.rehashidx d.ht0 d.ht1
    pub once : (q : K) → occurs q (bucket d.ht0 q) + occurs q (bucket d.ht1 q) ≤ 1

  -- The entry of a key, wherever it stands.
  unfoldable pub view : Dict K V → K → Option (K × V)
  view d q = or_else (chain_find q (bucket d.ht0 q)) (chain_find q (bucket d.ht1 q))

  -- An operation that the callers of the dictionary cannot see.
  pub record Keeps (d e : Dict K V) : Type ℓ where
    pub valid : IsValid e
    pub same_view : (q : K) → view e q ≡ view d q
    pub same_size : dict_size e ≡ dict_size d
    pub same_iterators : e.iterators ≡ d.iterators

  pub idle-eq-reset :
      (o : Option ℕ) (old new : Dictht K V) → o ≡ none → Phase o old new → new ≡ reset
  idle-eq-reset none old new e h = h
  idle-eq-reset (some idx) old new e h = cc

  pub chain_find_unused :
      (ht : Dictht K V) (q : K) → IsHt ht → ht.used ≡ 0 → chain_find q (bucket ht q) ≡ none
  chain_find_unused ht q v e = chain_find-eq-none q _ (
      omega (
        arith,
        v.counted,
        occurs-le-length q (bucket ht q),
        length-le-total ht.table (home type ht.sizemask q),
      ))

  -- `dictFind` looks into the second table only while a rehash goes on, and its shortcut for an
  -- empty dictionary changes nothing.
  pub find-view : (d : Dict K V) → IsValid d → (q : K) → find d q ≡ view d q
  unfolding find view or_else
  find-view d v q = ground (
    arith,
    chain_find_unused d.ht0 q v.old,
    chain_find_unused d.ht1 q v.new,
    idle-eq-reset d.rehashidx d.ht0 d.ht1,
    v.phase,
  )

  pub Keeps-refl : {d : Dict K V} → IsValid d → Keeps d d
  Keeps-refl v = record {
    valid = v;
    same_view = λ q. refl;
    same_size = refl;
    same_iterators = refl;
  }

  pub Keeps-trans : {d e f : Dict K V} → Keeps d e → Keeps e f → Keeps d f
  Keeps-trans h k = record {
    valid = k.valid;
    same_view = λ q. k.same_view q ∙ h.same_view q;
    same_size = k.same_size ∙ h.same_size;
    same_iterators = k.same_iterators ∙ h.same_iterators;
  }

module _ {ℓ} {K V : Type ℓ} (type : DictType K V) where
  pub create-IsValid : IsValid ⦃type = type⦄ create
  unfolding total occurs
  create-IsValid =
      let none_here : IsHt ⦃type = type⦄ reset = record {
        width = refl;
        mask = omega arith;
        counted = refl;
        placed = λ q i h. refl;
      } in
      record { old = none_here; new = none_here; phase = refl; once = λ q. omega arith }
