-- ===== src/Util.antt =====
-- src/vr_util.c: numbers as text. A string is the list of its bytes; `long long` is an integer.
pub mod Decimal
pub mod Digits
pub mod Print
pub mod Parse
pub mod Memory
pub mod Amount
mod Tests
use Prim.Native.String.{String}
use Prim.Native.Char.{code}
use myownproject.Base.{
  ℕ, zero, suc, ◌+◌, ◌-◌, ◌*◌, ◌/◌, ◌%◌, ◌^◌, Bool, true, false, ◌&&◌, Option, none, some, List, [],
  ◌∷◌, ltb, leb, ◌==◌, if◌then◌else◌, get_or, set, length,
}
use myownproject.Base.Int.{ℤ, pos, negsuc}

abbrev pub codes : String → List ℕ
codes String.[] = []
codes (String.◌∷◌ c s) = code c ∷ codes s

abbrev to_nat : Bool → ℕ
to_nat true = 1
to_nat false = 0

abbrev pub ull_max : ℕ
ull_max = 2 ^ 64 - 1

abbrev pub ll_max : ℕ
ll_max = 2 ^ 63 - 1

-- `digits10`; an unsigned 64-bit number needs the recursive call once at most.
digits10_fuel : ℕ → ℕ → ℕ
digits10_fuel zero v = 0
digits10_fuel (suc fuel) v =
    let more = digits10_fuel fuel (v / 1_000_000_000_000) in
    if ltb v 10
    then 1
    else if ltb v 100
    then 2
    else if ltb v 1000
    then 3
    else if ltb v 1_000_000_000_000
    then (if ltb v 100_000_000
        then (if ltb v 1_000_000
            then (if ltb v 10_000 then 4 else 5 + to_nat (leb 100_000 v))
            else 7 + to_nat (leb 10_000_000 v))
        else if ltb v 10_000_000_000
        then 9 + to_nat (leb 1_000_000_000 v)
        else 11 + to_nat (leb 100_000_000_000 v))
    else 12 + more

pub digits10 : ℕ → ℕ
unfolding digits10_fuel
digits10 v = digits10_fuel 2 v

-- The value of a negative number as the code computes it: LLONG_MIN has no negation.
abbrev pub magnitude : ℤ → ℕ
magnitude (pos n) = n
magnitude (negsuc n) = if n == ll_max then ll_max + 1 else n + 1

abbrev pub is_negative : ℤ → Bool
is_negative (pos n) = false
is_negative (negsuc n) = true

pub sdigits10 : ℤ → ℕ
sdigits10 v = if is_negative v then digits10 (magnitude v) + 1 else digits10 (magnitude v)

-- The constant `digits` of `ll2string`.
abbrev digit_pairs : List ℕ
digit_pairs =
    codes
      "00010203040506070809101112131415161718192021222324252627282930313233343536373839404142434445464748495051525354555657585960616263646566676869707172737475767778798081828384858687888990919293949596979899"

-- The two digits of the pair at index `i` of the table, written to end at the cursor.
write_pair : List ℕ → ℕ → ℕ → List ℕ
write_pair dst next i =
    set (set dst next (get_or digit_pairs (i + 1) 0)) (next - 1) (get_or digit_pairs i 0)

-- The `while` of `ll2string` and the last one or two digits. The fuel bounds the rounds: each
-- divides the number by 100, and 10 suffice for 64 bits.
pub print_loop : ℕ → List ℕ → ℕ → ℕ → List ℕ
unfolding write_pair
print_loop zero dst value next = dst
print_loop (suc fuel) dst value next =
    let rest = print_loop fuel (write_pair dst next (value % 100 * 2)) (value / 100) (next - 2) in
    if leb 100 value
    then rest
    else if ltb value 10
    then set dst next (b'0' + value)
    else write_pair dst next (value * 2)

-- `ll2string` on a buffer of `dstlen` bytes: the result and the buffer.
pub ll2string : List ℕ → ℤ → ℕ × List ℕ
ll2string dst svalue =
    let len = digits10 (magnitude svalue) + to_nat (is_negative svalue) in
    let printed = print_loop 10 (set dst len 0) (magnitude svalue) (len - 1) in
    if leb (length dst) len
    then (0, dst)
    else (len, if is_negative svalue then set printed 0 b'-' else printed)

abbrev pub is_digit : ℕ → Bool
is_digit c = leb b'0' c && leb c b'9'

-- The conversion of an unsigned 64-bit pattern to `long long`.
abbrev pub signed64 : ℕ → ℤ
signed64 w = if ltb w (2 ^ 63) then pos w else negsuc (2 ^ 64 - w - 1)

-- The `while` of `string2ll`: the value and what is left of the text, or `none` on overflow.
unfoldable pub parse_loop : List ℕ → ℕ → Option (ℕ × List ℕ)
parse_loop [] v = some (v, [])
parse_loop (c ∷ p) v =
    let rest = parse_loop p ((v * 10 % 2 ^ 64 + (c - b'0')) % 2 ^ 64) in
    if is_digit c
    then (if ltb (ull_max / 10) v
        then none
        else if ltb (ull_max - (c - b'0')) (v * 10 % 2 ^ 64)
        then none
        else rest)
    else some (v, c ∷ p)

-- The end of `string2ll`, from the number and what the loop left.
unfoldable pub parse_end : Bool → Option (ℕ × List ℕ) → Option ℤ
parse_end negative none = none
parse_end negative (some (v, c ∷ rest)) = none
parse_end true (some (v, [])) =
    if ltb (ll_max + 1) v then none else some (signed64 ((2 ^ 64 - v) % 2 ^ 64))
parse_end false (some (v, [])) = if ltb ll_max v then none else some (signed64 v)

-- From the first digit on; `slen` is the length of the whole text.
unfoldable pub parse_digits : Bool → ℕ → List ℕ → Option ℤ
unfolding parse_end
parse_digits negative slen [] = none
parse_digits negative slen (c ∷ p) =
    if leb b'1' c && leb c b'9'
    then parse_end negative (parse_loop p (c - b'0'))
    else if c == b'0' && slen == 1
    then some (pos 0)
    else none

unfoldable pub string2ll : List ℕ → Option ℤ
unfolding parse_digits
string2ll [] = none
string2ll (c ∷ p) =
    let slen = length (c ∷ p) in
    if slen == 1 && c == b'0'
    then some (pos 0)
    else if c == b'-'
    then parse_digits true slen p
    else parse_digits false slen (c ∷ p)
