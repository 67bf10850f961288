-- ===== src/Util/Memory.antt =====
-- src/vr_util.c: memtoll, an amount of memory as text.
use myownproject.Base.{
  ℕ, zero, suc, ◌+◌, ◌-◌, ◌*◌, ◌%◌, ◌^◌, Bool, true, false, ◌&&◌, ◌||◌, Option, none, some, List,
  [], ◌∷◌, map, ltb, leb, ◌==◌, if◌then◌else◌, length, take,
}
use myownproject.Base.Int.{ℤ, pos, negsuc}
use myownproject.Util.{codes}
use myownproject.Glob.Class.{lower}

-- `isdigit`.
abbrev pub is_digit : ℕ → Bool
is_digit c = leb b'0' c && leb c b'9'

unfoldable pub skip_digits : List ℕ → List ℕ
skip_digits [] = []
skip_digits (c ∷ cs) = if is_digit c then skip_digits cs else c ∷ cs

-- `u`, the first character that belongs to no number.
unfoldable pub unit_of : List ℕ → List ℕ
unit_of [] = []
unit_of (c ∷ cs) = if c == b'-' then skip_digits cs else skip_digits (c ∷ cs)

unfoldable pub same_text : List ℕ → List ℕ → Bool
same_text [] [] = true
same_text [] (d ∷ ds) = false
same_text (c ∷ cs) [] = false
same_text (c ∷ cs) (d ∷ ds) = c == d && same_text cs ds

-- `strcasecmp` with a text in lower case.
abbrev pub is_unit : List ℕ → List ℕ → Bool
is_unit u name = same_text (map lower u) name

-- `mul`.
unfoldable pub unit_value : List ℕ → Option ℕ
unit_value u =
    if is_unit u [] || is_unit u (codes "b")
    then some 1
    else if is_unit u (codes "k")
    then some 1000
    else if is_unit u (codes "kb")
    then some 1024
    else if is_unit u (codes "m")
    then some (1000 * 1000)
    else if is_unit u (codes "mb")
    then some (1024 * 1024)
    else if is_unit u (codes "g")
    then some (1000 * 1000 * 1000)
    else if is_unit u (codes "gb")
    then some (1024 * 1024 * 1024)
    else none

unfoldable pub digits_value : ℕ → List ℕ → ℕ
digits_value acc [] = acc
digits_value acc (c ∷ cs) = digits_value (acc * 10 + (c - b'0')) cs

abbrev pub at_most : ℕ → ℕ → ℕ
at_most most v = if leb v most then v else most

abbrev pub negative : ℕ → ℤ
negative zero = pos 0
negative (suc v) = negsuc v

-- `strtoll` on a text of digits with at most one sign, `none` where it stops before the end of the
-- text or, on an empty text, sets EINVAL, which the C library may do or not.
module _ (empty_fails : Bool) where
  unfoldable pub strtoll : List ℕ → Option ℤ
  strtoll [] = if empty_fails then none else some (pos 0)
  strtoll (c ∷ []) =
      if c == b'-' then none else some (pos (at_most (2 ^ 63 - 1) (digits_value 0 (c ∷ []))))
  strtoll (c ∷ d ∷ ds) =
      if c == b'-'
      then some (negative (at_most (2 ^ 63) (digits_value 0 (d ∷ ds))))
      else some (pos (at_most (2 ^ 63 - 1) (digits_value 0 (c ∷ d ∷ ds))))

  -- A 64-bit word as a signed number.
  abbrev pub from_word : ℕ → ℤ
  from_word w = if ltb w (2 ^ 63) then pos w else negative (2 ^ 64 - w)

  abbrev pub times : Option ℤ → ℕ → Option ℤ
  times none m = none
  times (some (pos v)) m = some (from_word (v * m % 2 ^ 64))
  times (some (negsuc v)) m = some (from_word ((2 ^ 64 - suc v * m % 2 ^ 64) % 2 ^ 64))

  abbrev pub scaled : List ℕ → ℕ → Option ℕ → Option ℤ
  scaled p digits none = none
  scaled p digits (some m) = if leb 128 digits then none else times (strtoll (take digits p)) m

  -- `none` where `*err` is 1. A product beyond 64 bits, undefined in C, wraps.
  unfoldable pub memtoll : List ℕ → Option ℤ
  memtoll p = scaled p (length p - length (unit_of p)) (unit_value (unit_of p))
