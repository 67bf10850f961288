-- ===== src/Dict.antt =====
-- src/vr_dict.c and src/vr_dict.h: the hash table with incremental rehashing. A bucket is the
-- list of its entries, a table that is NULL is the empty list, and the -1 of `rehashidx` is `none`.
pub mod Entries
pub mod Tables
pub mod Valid
pub mod Move
pub mod Rehash
pub mod Progress
pub mod Update
pub mod Expand
pub mod Index
pub mod Writes
pub mod Add
pub mod Rewrite
pub mod Delete
pub mod Replace
pub mod Clear
mod Tests
use myownproject.Base.{
  ℕ, zero, suc, ◌+◌, ◌-◌, ◌*◌, ◌/◌, ◌%◌, ◌^◌, ◌≡◌, Bool, true, false, ◌||◌, ◌&&◌, Option, none,
  some, List, [], ◌∷◌, ◌++◌, ltb, leb, ◌==◌, if◌then◌else◌, get_or, set, replicate, length,
}
use myownproject.Base.Int.{ℤ, pos, negsuc}
use myownproject.Dict.Tables.{home}
use myownproject.Dict.Entries.{DictType, Chain, chain_find, chain_assign, chain_remove}

-- `dictht`
pub record Dictht {ℓ} (K V : Type ℓ) : Type ℓ where
  pub table : List (Chain K V)
  pub size : ℕ
  pub sizemask : ℕ
  pub used : ℕ

pub record Dict {ℓ} (K V : Type ℓ) : Type ℓ where
  pub ht0 : Dictht K V
  pub ht1 : Dictht K V
  pub rehashidx : Option ℕ
  pub iterators : ℕ

abbrev pub initial_size : ℕ
initial_size = 4

abbrev pub long_max : ℕ
long_max = 2 ^ 63 - 1

-- A number that is assigned to an `int` of 32 bits.
abbrev pub to_int : ℕ → ℤ
to_int i = let w = i % 2 ^ 32 in if ltb w (2 ^ 31) then pos w else negsuc (2 ^ 32 - 1 - w)

-- `minimal` of `dictResize`, an `int`.
abbrev at_least_initial : ℤ → ℕ
at_least_initial (negsuc n) = initial_size
at_least_initial (pos used) = if ltb used initial_size then initial_size else used

-- The -1 of `_dictKeyIndex`.
abbrev pub no_index : ℤ
no_index = negsuc 0

abbrev pub force_resize_ratio : ℕ
force_resize_ratio = 5

module _ {ℓ} {K V : Type ℓ} where
  abbrev pub reset : Dictht K V
  reset = record { table = []; size = 0; sizemask = 0; used = 0 }

  abbrev pub create : Dict K V
  create = record { ht0 = reset; ht1 = reset; rehashidx = none; iterators = 0 }

  abbrev pub is_rehashing : Dict K V → Bool
  is_rehashing d = elim d.rehashidx [ none ↦ false | some _ ↦ true ]

  abbrev pub is_null : List (Chain K V) → Bool
  is_null [] = true
  is_null (c ∷ t) = false

  abbrev pub dict_size : Dict K V → ℕ
  dict_size d = d.ht0.used + d.ht1.used

-- The `while` of `_dictNextPower`; 61 doublings of 4 pass every size below LONG_MAX.
next_power_loop : ℕ → ℕ → ℕ → ℕ
next_power_loop zero i size = i
next_power_loop (suc fuel) i size =
    let rest = next_power_loop fuel (i * 2) size in if leb size i then i else rest

pub next_power : ℕ → ℕ
next_power size = if leb long_max size then long_max else next_power_loop 61 initial_size size

-- What the inner `while` of `dictRehash` ends in: its early `return 1`, or a bucket with entries.
pub data Visit : Type 0 where
  stopped : ℕ → Visit
  found : ℕ → ℕ → Visit

module _ {ℓ} {K V : Type ℓ} where
  -- `none` is DICT_ERR.
  pub expand : Dict K V → ℕ → Option (Dict K V)
  expand d size =
      let realsize = next_power size in
      let n : Dictht K V = record {
        table = replicate realsize [];
        size = realsize;
        sizemask = realsize - 1;
        used = 0;
      } in
      if is_rehashing d || ltb size d.ht0.used
      then none
      else if realsize == d.ht0.size
      then none
      else if is_null d.ht0.table
      then some (record d { ht0 = n })
      else some (record d { ht1 = n; rehashidx = some 0 })

  -- `can_resize` is the static `dict_can_resize`.
  pub resize : Bool → Dict K V → Option (Dict K V)
  resize can_resize d =
      if (if can_resize then is_rehashing d else true)
      then none
      else expand d (at_least_initial (to_int d.ht0.used))

  pub expand_if_needed : Bool → Dict K V → Option (Dict K V)
  expand_if_needed can_resize d =
      if is_rehashing d
      then some d
      else if d.ht0.size == 0
      then expand d initial_size
      else if leb d.ht0.size d.ht0.used
          && (can_resize || ltb force_resize_ratio (d.ht0.used / d.ht0.size))
      then expand d (d.ht0.used * 2)
      else some d

  -- The buckets from `idx` on, with `empty_visits` left.
  pub skip_empty : ℕ → List (Chain K V) → ℕ → Visit
  skip_empty zero table idx = stopped idx
  skip_empty (suc empty_visits) table idx = elim (get_or table idx []) [
    | [] ↦ elim empty_visits [
      | zero ↦ stopped (idx + 1)
      | suc _ ↦ skip_empty empty_visits table (idx + 1)
    ]
    | _ ↦ found idx (suc empty_visits)
  ]

  -- The end of `dictRehash`: the new table takes the place of the old one once that is empty.
  pub finish : Dict K V → Dict K V × Bool
  finish d =
      if d.ht0.used == 0
      then (record d { ht0 = d.ht1; ht1 = reset; rehashidx = none }, false)
      else (d, true)

module _ {ℓ} {K V : Type ℓ} ⦃type : DictType K V⦄ where
  abbrev pub index : Dictht K V → K → ℕ
  index ht key = home type ht.sizemask key

  abbrev pub bucket : Dictht K V → K → Chain K V
  bucket ht key = get_or ht.table (index ht key) []

  -- The innermost `while` of `dictRehash`: every entry goes to the front of its new bucket.
  pub move_bucket : Chain K V → Dict K V → Dict K V
  move_bucket [] d = d
  move_bucket (de ∷ nextde) d = move_bucket nextde (record d {
    ht0 = record (d.ht0) { used = d.ht0.used - 1 };
    ht1 = record (d.ht1) {
      table = set d.ht1.table (index d.ht1 de.0) (de ∷ bucket d.ht1 de.0);
      used = d.ht1.used + 1;
    };
  })

  -- One round of the outer `while`, at a bucket with entries.
  pub rehash_bucket : Dict K V → ℕ → Dict K V
  rehash_bucket d i =
      let moved = move_bucket (get_or d.ht0.table i []) d in
      record moved {
        ht0 = record (moved.ht0) { table = set moved.ht0.table i [] };
        rehashidx = some (i + 1);
      }

  pub rehash_loop : ℕ → ℕ → ℕ → Dict K V → Dict K V × Bool
  rehash_loop zero empty_visits idx d = finish d
  rehash_loop (suc n) empty_visits idx d = elim (d.ht0.used == 0) [
    | true ↦ finish d
    | false ↦ elim (skip_empty empty_visits d.ht0.table idx) [
      | stopped i ↦ (record d { rehashidx = some i }, true)
      | found i left ↦ rehash_loop n left (i + 1) (rehash_bucket d i)
    ]
  ]

  -- `dictRehash`; the flag says that there is more to move.
  pub rehash : Dict K V → ℕ → Dict K V × Bool
  rehash d n = elim d.rehashidx [ none ↦ (d, false) | some idx ↦ rehash_loop n (n * 10) idx d ]

  -- `dictRehashMilliseconds`, on the readings of the clock since its start, one after each round;
  -- the number is the count of rehashes. The readings end where the model stops looking.
  pub rehash_milliseconds : Dict K V → ℕ → List ℕ → Dict K V × ℕ
  rehash_milliseconds d ms [] = (d, 0)
  rehash_milliseconds d ms (elapsed ∷ clock) =
      let (e, more) = rehash d 100 in
      let (f, rehashes) = rehash_milliseconds e ms clock in
      if more then (if ltb ms elapsed then (e, 100) else (f, rehashes + 100)) else (e, 0)

  pub rehash_step : Dict K V → Dict K V
  rehash_step d = if d.iterators == 0 then (rehash d 1).0 else d

  abbrev pub rehash_if_busy : Dict K V → Dict K V
  rehash_if_busy d = if is_rehashing d then rehash_step d else d

  -- The entry of `key`, as `dictFind` returns it.
  pub find : Dict K V → K → Option (K × V)
  find d key = if dict_size d == 0 then none else elim (chain_find key (bucket d.ht0 key)) [
    | some he ↦ some he
    | none ↦ if is_rehashing d then chain_find key (bucket d.ht1 key) else none
  ]

  pub fetch_value : Dict K V → K → Option V
  fetch_value d key = elim (find d key) [ none ↦ none | some he ↦ some he.1 ]

  -- `_dictKeyIndex`, with the dictionary that it may have expanded.
  pub key_index : Bool → Dict K V → K → Dict K V × ℤ
  key_index can_resize d key = elim (expand_if_needed can_resize d) [
    | none ↦ (d, no_index)
    | some e ↦ elim (chain_find key (bucket e.ht0 key)) [
      | some he ↦ (e, no_index)
      | none ↦
          if is_rehashing e
          then (elim (chain_find key (bucket e.ht1 key)) [
            | some he ↦ (e, no_index)
            | none ↦ (e, to_int (index e.ht1 key))
          ])
          else (e, to_int (index e.ht0 key))
    ]
  ]

  push_entry : Dictht K V → ℕ → K × V → Dictht K V
  push_entry ht i entry = record ht {
    table = set ht.table i (entry ∷ get_or ht.table i []);
    used = ht.used + 1;
  }

  count_entry : Dictht K V → Dictht K V
  count_entry ht = record ht { used = ht.used + 1 }

  -- The rest of `dictAddRaw`, after `_dictKeyIndex`. The flag is that of DICT_OK: the key was new. A
  -- write in front of the table, undefined in C, changes no bucket here.
  pub place : K × V → Dict K V × ℤ → Dict K V × Bool
  unfolding push_entry count_entry
  place entry (e, negsuc zero) = (e, false)
  place entry (e, negsuc (suc n)) =
      if is_rehashing e
      then (record e { ht1 = count_entry e.ht1 }, true)
      else (record e { ht0 = count_entry e.ht0 }, true)
  place entry (e, pos i) =
      if is_rehashing e
      then (record e { ht1 = push_entry e.ht1 i entry }, true)
      else (record e { ht0 = push_entry e.ht0 i entry }, true)

  -- `dictAddRaw`, and the value that its caller puts into the new entry.
  pub add : Bool → Dict K V → K → V → Dict K V × Bool
  unfolding place
  add can_resize d key val =
      place (type.key_dup key, type.val_dup val) (key_index can_resize (rehash_if_busy d) key)

  -- `dictSetVal` through the entry that `dictFind` returns.
  set_val : Dict K V → K → V → Dict K V
  set_val d key val = elim (chain_find key (bucket d.ht0 key)) [
    | some he ↦ record d {
      ht0 = record (d.ht0) {
        table = set d.ht0.table (index d.ht0 key) (chain_assign key val (bucket d.ht0 key));
      };
    }
    | none ↦ record d {
      ht1 = record (d.ht1) {
        table = set d.ht1.table (index d.ht1 key) (chain_assign key val (bucket d.ht1 key));
      };
    }
  ]

  -- `dictReplace`: the flag says that the key is new.
  pub replace : Bool → Dict K V → K → V → Dict K V × Bool
  unfolding set_val
  replace can_resize d key val =
      let (e, added) = add can_resize d key val in
      if added then (e, true) else (set_val e key (type.val_dup val), false)

  unlink : Dictht K V → K → Chain K V → Dictht K V
  unlink ht key rest = record ht { table = set ht.table (index ht key) rest; used = ht.used - 1 }

  -- The `for` of `dictGenericDelete` over the two tables.
  unlink_found : K → Dict K V → Dict K V × Bool
  unfolding unlink
  unlink_found key e = elim (chain_remove key (bucket e.ht0 key)) [
    | some rest ↦ (record e { ht0 = unlink e.ht0 key rest }, true)
    | none ↦
        if is_rehashing e
        then (elim (chain_remove key (bucket e.ht1 key)) [
          | some rest ↦ (record e { ht1 = unlink e.ht1 key rest }, true)
          | none ↦ (e, false)
        ])
        else (e, false)
  ]

  -- `dictGenericDelete`; the flag is that of DICT_OK.
  pub delete : Dict K V → K → Dict K V × Bool
  unfolding unlink_found
  delete d key = if d.ht0.size == 0 then (d, false) else unlink_found key (rehash_if_busy d)

module _ {ℓ} {K V : Type ℓ} where
  -- The loop of `_dictClear` over the buckets from `i` on, with the entries that it frees.
  unfoldable clear_loop : List (Chain K V) → ℕ → List (K × V)
  clear_loop [] used = []
  clear_loop (he ∷ table) used =
      let rest = clear_loop table (used - length he) in if ltb 0 used then he ++ rest else []

  -- `dictEmpty`, with the entries of both tables that it frees.
  pub empty : Dict K V → Dict K V × List (K × V)
  unfolding clear_loop
  empty d = (
    record { ht0 = reset; ht1 = reset; rehashidx = none; iterators = 0 },
    clear_loop d.ht0.table d.ht0.used ++ clear_loop d.ht1.table d.ht1.used,
  )
