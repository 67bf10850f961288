-- ===== src/Intset/Tests.antt =====
-- Runs of the integer set, and its theorems at concrete sets.
use myownproject.Base.{
  ℕ, ◌+◌, ◌*◌, ◌%◌, ◌≡◌, refl, true, false, not, ◌&&◌, ◌||◌, [], ◌∷◌, none, arith,
}
use mathlib.Core.Logic.{◌↔◌}
use myownproject.Base.Int.{pos, negsuc, eqb_ℤ}
use myownproject.Intset.{
  Intset, value_encoding, get_encoded, get, put, new, search_loop, search, find, resize_to,
  upgrade_loop, upgrade_and_add, move_tail, add_at, add, remove_at, remove, get_at, blob_len,
  random,
}
use myownproject.Intset.Cells.{int16}
use myownproject.Intset.Search.{IsPlace, search-IsPlace}
use myownproject.Intset.Valid.{Valid, Member, find-Member}
use myownproject.Intset.Add.{find-add, add-Valid}
use myownproject.Intset.Remove.{find-remove, remove-Valid}

program : Unit {0}
unfolding value_encoding get_encoded get put new search_loop search find resize_to upgrade_loop
    upgrade_and_add move_tail add_at add remove_at remove get_at blob_len random
program = tt

-- Fresh bytes hold anything.
abbrev junk : ℕ → ℕ
junk at = (at * 77 + 13) % 256

abbrev small : Intset
small = (add junk (add junk (add junk new (pos 1000)).1 (negsuc 4)).1 (pos 7)).1

-- The upgrade rewrites three cells of two bytes as four bytes, behind the new value.
upgrade_runs :
    (small.contents ≡ 251 ∷ 255 ∷ 7 ∷ 0 ∷ 232 ∷ 3 ∷ [])
    × ((add junk small (negsuc 69_999)).1.contents
        ≡ 144 ∷ 238 ∷ 254 ∷ 255 ∷ 251 ∷ 255 ∷ 255 ∷ 255 ∷ 7 ∷ 0 ∷ 0 ∷ 0 ∷ 232 ∷ 3 ∷ 0 ∷ 0 ∷ [])
unfolding program
upgrade_runs = (refl, refl)

set_runs :
    ((add junk small (pos 7)).0 ≡ false)
    × (search small (pos 8) ≡ (false, 2))
    × ((remove junk small (pos 7)).1.contents ≡ 251 ∷ 255 ∷ 232 ∷ 3 ∷ [])
    × (get_at small 3 ≡ none)
unfolding program
set_runs = (refl, refl, refl, refl)

new-Valid : Valid new
unfolding program
new-Valid = record {
  known = int16;
  sized = refl;
  fits = λ i l. absurd (omega arith);
  sorted = λ i j l inside. absurd (omega arith);
}

abbrev one : Intset
one = (add junk new (pos 1000)).1

one-Valid : Valid one
unfolding program
one-Valid = (add-Valid junk new (pos 1000) new-Valid (omega arith) (omega arith)).0

abbrev two : Intset
two = (add junk one (negsuc 4)).1

two-Valid : Valid two
unfolding program
two-Valid = (add-Valid junk one (negsuc 4) one-Valid (omega arith) (omega arith)).0

search-IsPlace_example : IsPlace two (pos 7) (search two (pos 7))
search-IsPlace_example = search-IsPlace two (pos 7) two-Valid.sorted

find-Member_example : (find two (pos 1000) ≡ true) ↔ Member two (pos 1000)
find-Member_example = find-Member two (pos 1000) two-Valid

find-add_example :
    find (add junk two (negsuc 69_999)).1 (pos 1000)
    ≡ (eqb_ℤ (negsuc 69_999) (pos 1000) || find two (pos 1000))
unfolding program
find-add_example =
    find-add junk two (negsuc 69_999) (pos 1000) two-Valid (omega arith) (omega arith)

add-Valid_example :
    Valid (add junk two (pos 7)).1 × ((add junk two (pos 7)).0 ≡ not (find two (pos 7)))
unfolding program
add-Valid_example = add-Valid junk two (pos 7) two-Valid (omega arith) (omega arith)

find-remove_example :
    find (remove junk two (negsuc 4)).1 (pos 1000)
    ≡ (find two (pos 1000) && not (eqb_ℤ (negsuc 4) (pos 1000)))
unfolding program
find-remove_example = find-remove junk two (negsuc 4) (pos 1000) two-Valid (omega arith)

remove-Valid_example :
    Valid (remove junk two (negsuc 4)).1 × ((remove junk two (negsuc 4)).0 ≡ find two (negsuc 4))
unfolding program
remove-Valid_example = remove-Valid junk two (negsuc 4) two-Valid (omega arith)
