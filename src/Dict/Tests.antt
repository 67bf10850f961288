-- ===== src/Dict/Tests.antt =====
-- The dictionary over numbers that are their own hashes: runs, and the theorems at these values.
use myownproject.Base.{
  ℕ, ◌+◌, ◌<◌, ◌≡◌, refl, true, false, none, some, [], ◌∷◌, arith, ◌==◌, ==_iff,
}
use myownproject.Dict.{
  Dict, create, find, add, delete, replace, rehash, rehash_milliseconds, empty, is_rehashing,
  dict_size, next_power, next_power_loop, expand, expand_if_needed, key_index, place, push_entry,
  count_entry, rehash_step, rehash_loop, rehash_bucket, move_bucket, skip_empty, finish, clear_loop,
  unlink, unlink_found, set_val, initial_size, resize, fetch_value,
}
use myownproject.Dict.Entries.{DictType, is_key, chain_find, chain_assign, chain_remove}
use myownproject.Dict.Tables.{home}
use myownproject.Dict.Valid.{IsValid, Keeps, create-IsValid, find-view, view}
use myownproject.Dict.Rehash.{rehash-Keeps}
use myownproject.Dict.Progress.{rehash-lt, remaining, rehash_milliseconds_finishes}
use myownproject.Dict.Expand.{
  next_power_lem, IsNextPower, fresh, second-Keeps, expand_if_needed-Expanded, Expanded,
}
use myownproject.Dict.Writes.{Writes}
use myownproject.Dict.Add.{add-Writes, add-Keeps}
use myownproject.Dict.Delete.{delete-Writes, delete-Keeps}
use myownproject.Dict.Replace.{replace-Writes}

numbers : DictType ℕ ℕ
numbers = record {
  hash = λ k. k;
  key_compare = λ a b. a == b;
  same_pointer = λ a b. a == b;
  key_dup = λ k. k;
  val_dup = λ v. v;
  compare_refl = λ a. ground arith;
  compare_symm = λ a b h. ground arith;
  compare_trans = λ a b c h k. ground arith;
  compare_pointer = λ a b h. h;
  compare_dup = λ a. ground arith;
  hash-compare = λ a b h. (==_iff a b).0 h;
}

instance abbrev numbers_type : DictType ℕ ℕ
unfolding numbers
numbers_type = numbers

program : Unit {0}
unfolding numbers is_key home chain_find chain_assign chain_remove find add delete replace rehash
    empty next_power next_power_loop expand expand_if_needed key_index place push_entry count_entry
    rehash_step rehash_loop rehash_bucket move_bucket skip_empty finish clear_loop unlink
    unlink_found set_val rehash_milliseconds resize fetch_value
program = tt

abbrev none_yet : Dict ℕ ℕ
none_yet = create

-- One key, in a first table of four buckets.
abbrev one_key : Dict ℕ ℕ
one_key = (add true none_yet 5 50).0

one_key_runs : (one_key.ht0.table ≡ [] ∷ ((5, 50) ∷ []) ∷ [] ∷ [] ∷ []) × (one_key.ht0.used ≡ 1)
unfolding program
one_key_runs = (refl, refl)

-- Five keys do not fit four buckets: the fifth starts a rehash.
abbrev five_keys : Dict ℕ ℕ
five_keys = (add true (add true (add true (add true one_key 6 60).0 7 70).0 8 80).0 9 90).0

five_keys-rehash :
    (five_keys.rehashidx ≡ some 0)
    × (five_keys.ht1.size ≡ 8)
    × (find five_keys 9 ≡ some (9, 90))
    × ((delete five_keys 6).1 ≡ true)
    × ((delete five_keys 10).1 ≡ false)
    × ((rehash five_keys 100).1 ≡ false)
unfolding program
five_keys-rehash = (refl, refl, refl, refl, refl, refl)

one_key-IsValid : IsValid one_key
unfolding program
one_key-IsValid =
    (add-Writes true none_yet 5 50 (create-IsValid numbers) (omega arith) refl (omega arith)
      (omega arith)).1.valid

find-one_key : find one_key 5 ≡ some (5, 50)
unfolding program
find-one_key = refl

-- The same table in the middle of a rehash.
abbrev busy : Dict ℕ ℕ
busy = record one_key { ht1 = fresh 8; rehashidx = some 0 }

busy-IsValid : IsValid busy
unfolding program
busy-IsValid = (second-Keeps one_key 8 one_key-IsValid refl (omega arith) (omega arith)).valid

find-view_example : find busy 5 ≡ view busy 5
find-view_example = find-view busy busy-IsValid 5

rehash-Keeps_example : Keeps busy (rehash busy 1).0
rehash-Keeps_example = rehash-Keeps busy 1 busy-IsValid

rehash-lt_example : remaining (rehash busy 1).0 < remaining busy
rehash-lt_example = rehash-lt busy 0 busy-IsValid refl

rehash_milliseconds_finishes_example :
    is_rehashing (rehash_milliseconds busy 5 (0 ∷ 1 ∷ 1 ∷ 2 ∷ 3 ∷ 5 ∷ [])).0 ≡ false
unfolding program remaining
rehash_milliseconds_finishes_example =
    rehash_milliseconds_finishes busy 5 (0 ∷ 1 ∷ 1 ∷ 2 ∷ 3 ∷ 5 ∷ []) busy-IsValid (omega arith)
      (omega arith)

next_power_lem_example : IsNextPower initial_size 9 (next_power 9)
next_power_lem_example = next_power_lem 9 (omega arith)

expand_if_needed-Expanded_example : Expanded one_key (expand_if_needed true one_key)
unfolding program
expand_if_needed-Expanded_example =
    expand_if_needed-Expanded true one_key one_key-IsValid (omega arith)

add-Writes_example :
    ((add true none_yet 5 50).1 ≡ true)
    × Writes none_yet 5 (some (5, 50)) (add true none_yet 5 50).0
    × (dict_size (add true none_yet 5 50).0 ≡ 1)
unfolding program
add-Writes_example =
    add-Writes true none_yet 5 50 (create-IsValid numbers) (omega arith) refl (omega arith)
      (omega arith)

add-Keeps_example : ((add true one_key 5 51).1 ≡ false) × Keeps one_key (add true one_key 5 51).0
unfolding program
add-Keeps_example = add-Keeps true one_key 5 51 (5, 50) one_key-IsValid (omega arith) find-one_key

delete-Writes_example :
    ((delete one_key 5).1 ≡ true)
    × Writes one_key 5 none (delete one_key 5).0
    × (dict_size (delete one_key 5).0 + 1 ≡ dict_size one_key)
delete-Writes_example = delete-Writes one_key 5 (5, 50) one_key-IsValid find-one_key

delete-Keeps_example : ((delete one_key 6).1 ≡ false) × Keeps one_key (delete one_key 6).0
unfolding program
delete-Keeps_example = delete-Keeps one_key 6 one_key-IsValid refl

replace-Writes_example :
    ((replace true one_key 5 51).1 ≡ false)
    × Writes one_key 5 (some (5, 51)) (replace true one_key 5 51).0
    × (dict_size (replace true one_key 5 51).0 ≡ dict_size one_key)
unfolding program
replace-Writes_example =
    replace-Writes true one_key 5 51 (5, 50) one_key-IsValid (omega arith) find-one_key
