-- ===== src/Util/Tests.antt =====
-- Runs of the number texts, and the theorems at concrete numbers.
use myownproject.Base.{
  ℕ, ◌-◌, ◌*◌, ◌^◌, ◌≡◌, refl, true, false, some, none, List, [], ◌∷◌, ◌++◌, arith, length,
  replicate,
}
use myownproject.Base.Int.{ℤ, pos, negsuc}
use myownproject.Util.{
  digits10, digits10_fuel, ll2string, print_loop, write_pair, string2ll, parse_loop, parse_end,
  parse_digits, codes,
}
use myownproject.Util.Decimal.{decimal, decimal_fuel}
use myownproject.Util.Digits.{digits10-decimal}
use myownproject.Util.Print.{text, IsLongLong, ll2string-text}
use myownproject.Util.Memory.{
  skip_digits, unit_of, same_text, unit_value, digits_value, strtoll, memtoll,
}
use myownproject.Util.Amount.{megabytes, suffix, multiple, memtoll-decimal}
use myownproject.Util.Parse.{string2ll-text, string2ll_sound}

program : Unit {0}
unfolding digits10 digits10_fuel ll2string print_loop write_pair string2ll parse_loop parse_end
    parse_digits decimal decimal_fuel text
program = tt

abbrev buffer : List ℕ
buffer = replicate 8 b'x'

abbrev lowest : ℤ
lowest = negsuc (2 ^ 63 - 1)

ll2string_runs : ll2string buffer (negsuc 1233) ≡ (5, codes "-1234" ++ (0 ∷ codes "xx"))
unfolding program
ll2string_runs = refl

ll2string-lowest : (ll2string (replicate 21 0) lowest).0 ≡ 20
unfolding program
ll2string-lowest = refl

string2ll_runs :
    (string2ll (codes "-9223372036854775808") ≡ some lowest)
    × (string2ll (codes "9223372036854775808") ≡ none)
    × (string2ll (codes "18446744073709551616") ≡ none)
    × (string2ll (codes "-0") ≡ none)
    × (string2ll (codes "007") ≡ none)
    × (string2ll (codes "12x") ≡ none)
    × (string2ll [] ≡ none)
unfolding program
string2ll_runs = (refl, refl, refl, refl, refl, refl, refl)

digits10-decimal_example : digits10 1_000_000_000_000_000 ≡ length (decimal 1_000_000_000_000_000)
digits10-decimal_example = digits10-decimal 1_000_000_000_000_000 (omega arith)

ll2string-text_example : ll2string buffer (negsuc 1233) ≡ (5, codes "-1234" ++ (0 ∷ codes "xx"))
unfolding program
ll2string-text_example = ll2string-text buffer (negsuc 1233) (omega arith) (omega arith)

string2ll-text_example : string2ll (text lowest) ≡ some lowest
string2ll-text_example = string2ll-text lowest (omega arith)

string2ll_sound_example : (codes "-42" ≡ text (negsuc 41)) × IsLongLong (negsuc 41)
unfolding program
string2ll_sound_example = string2ll_sound (codes "-42") (negsuc 41) refl

memory_program : Unit {0}
unfolding skip_digits unit_of same_text unit_value digits_value strtoll memtoll
memory_program = tt

memtoll_runs : memtoll true (codes "-3Gb") ≡ some (negsuc (3 * 2 ^ 30 - 1))
unfolding memory_program
memtoll_runs = refl

memtoll_refuses : memtoll true (codes "12x") ≡ none
unfolding memory_program
memtoll_refuses = refl

-- A number that is too large is read as the largest.
memtoll_saturates : memtoll true (codes "99999999999999999999") ≡ some (pos (2 ^ 63 - 1))
unfolding memory_program
memtoll_saturates = refl

memtoll-decimal_example :
    memtoll false (decimal 64 ++ suffix megabytes) ≡ some (pos (64 * multiple megabytes))
memtoll-decimal_example = memtoll-decimal false 64 megabytes (omega arith)
