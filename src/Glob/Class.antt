-- ===== src/Glob/Class.antt =====
-- src/vr_util.c, stringmatchlen: what one place of a pattern says of one character.
use myownproject.Base.{
  ℕ, zero, suc, ◌+◌, ◌%◌, Bool, true, false, not, ◌&&◌, ◌||◌, Option, none, some, List, [], ◌∷◌,
  ltb, leb, ◌==◌, if◌then◌else◌, length,
}

abbrev pub Bytes : Type 0
Bytes = List ℕ

-- `tolower` of the C library.
abbrev pub lower : ℕ → ℕ
lower c = if leb 65 c && leb c 90 then c + 32 else c

-- `char` is signed: its order as numbers from 0.
abbrev pub signed : ℕ → ℕ
signed c = (c + 128) % 256

abbrev pub same_char : Bool → ℕ → ℕ → Bool
same_char nocase a c = if nocase then lower a == lower c else a == c

-- `if (start > end)` the two are exchanged, before the case is forgotten.
abbrev pub between : ℕ → ℕ → ℕ → Bool
between start end c = leb (signed start) (signed c) && leb (signed c) (signed end)

abbrev pub fold_case : Bool → ℕ → ℕ
fold_case nocase c = if nocase then lower c else c

unfoldable pub in_range : Bool → ℕ → ℕ → ℕ → Bool
in_range nocase a z c =
    if ltb (signed z) (signed a)
    then between (fold_case nocase z) (fold_case nocase a) (fold_case nocase c)
    else between (fold_case nocase a) (fold_case nocase z) (fold_case nocase c)

-- What stands next between the brackets, with the pattern behind it; `overrun` is a backslash that
-- ends the pattern, behind which the code goes on reading.
pub data Item : Type 0 where
  finished : Bytes → Item
  overrun : Item
  escaped : ℕ → Bytes → Item
  range : ℕ → ℕ → Bytes → Item
  single : ℕ → Bytes → Item

abbrev pub escaped_item : Bytes → Item
escaped_item [] = overrun
escaped_item (q ∷ qs) = escaped q qs

abbrev pub ranged_item : ℕ → Bytes → Item
ranged_item a [] = single a []
ranged_item a (d ∷ []) = single a (d ∷ [])
ranged_item a (d ∷ z ∷ qs) = if d == b'-' then range a z qs else single a (d ∷ z ∷ qs)

unfoldable pub next_item : ℕ → Bytes → Item
next_item a ps =
    if a == b'\\' then escaped_item ps else if a == b']' then finished ps else ranged_item a ps

-- Without a character (`none`: the place is behind the string) nothing can be compared.
unfoldable pub take_item :
    Bool → Option ℕ → Bool → Item → (Bytes → Bool → Option (Bool × Bytes)) → Option (Bool × Bytes)
take_item nocase c match (finished qs) next = some (match, qs)
take_item nocase c match overrun next = none
take_item nocase none match (escaped q qs) next = none
take_item nocase none match (range a z qs) next = none
take_item nocase none match (single a qs) next = none
take_item nocase (some c) match (escaped q qs) next = next qs (match || q == c)
take_item nocase (some c) match (range a z qs) next = next qs (match || in_range nocase a z c)
take_item nocase (some c) match (single a qs) next = next qs (match || same_char nocase a c)

-- The loop between the brackets, on fuel; a pattern that ends there ends the class.
unfoldable pub class_loop : ℕ → Bool → Option ℕ → Bytes → Bool → Option (Bool × Bytes)
class_loop fuel nocase c [] match = some (match, [])
class_loop zero nocase c (a ∷ ps) match = none
class_loop (suc fuel) nocase c (a ∷ ps) match =
    take_item nocase c match (next_item a ps) (class_loop fuel nocase c)

-- The pattern behind a place that holds for the character.
pub data Consumed : Type 0 where
  outside : Consumed
  differs : Consumed
  taken : Bytes → Consumed

abbrev pub consumed : Bool → Bytes → Consumed
consumed match qs = if match then taken qs else differs

abbrev pub after_class : Bool → Option (Bool × Bytes) → Consumed
after_class negated none = outside
after_class negated (some (match, qs)) = consumed (if negated then not match else match) qs

unfoldable pub class : Bool → Option ℕ → Bytes → Consumed
class nocase c [] = after_class false (class_loop 0 nocase c [] false)
class nocase c (p ∷ ps) =
    if p == b'^'
    then after_class true (class_loop (length ps) nocase c ps false)
    else after_class false (class_loop (suc (length ps)) nocase c (p ∷ ps) false)

abbrev pub literal : Bool → Option ℕ → ℕ → Bytes → Consumed
literal nocase none p ps = outside
literal nocase (some c) p ps = consumed (same_char nocase p c) ps

abbrev pub escape : Bool → Option ℕ → Bytes → Consumed
escape nocase c [] = literal nocase c b'\\' []
escape nocase c (q ∷ qs) = literal nocase c q qs

-- The cases of the `switch` but for `*`.
unfoldable pub one_char : Bool → ℕ → Bytes → Option ℕ → Consumed
one_char nocase p ps c =
    if p == b'?'
    then taken ps
    else if p == b'['
    then class nocase c ps
    else if p == b'\\'
    then escape nocase c ps
    else literal nocase c p ps
