-- ===== src/Glob/Shorter.antt =====
-- src/vr_util.c, stringmatchlen: each place of a pattern takes itself off it.
use myownproject.Base.{
  ℕ, zero, suc, ◌≤◌, inl, inr, Bool, true, false, not, ◌||◌, Option, none, some, [], ◌∷◌, ◌==◌,
  if◌then◌else◌, arith, length, Bool-cases,
}
use myownproject.Glob.Class.{
  Bytes, Item, finished, overrun, escaped, range, single, next_item, take_item, class_loop,
  Consumed, outside, differs, taken, class, one_char, escaped_item, ranged_item, after_class,
  consumed, literal, escape, in_range, same_char,
}

-- A place takes at least itself off the pattern.
abbrev pub Shorter : ℕ → Consumed → Type 0
Shorter n (taken qs) = length qs ≤ n
Shorter n outside = Unit {0}
Shorter n differs = Unit {0}

abbrev ShorterClass : ℕ → Option (Bool × Bytes) → Type 0
ShorterClass n none = Unit {0}
ShorterClass n (some (m, qs)) = length qs ≤ n

abbrev pub ShorterItem : ℕ → Item → Type 0
ShorterItem n (finished qs) = length qs ≤ n
ShorterItem n overrun = Unit {0}
ShorterItem n (escaped q qs) = length qs ≤ n
ShorterItem n (range a z qs) = length qs ≤ n
ShorterItem n (single a qs) = length qs ≤ n

ranged_item-Shorter :
    (a : ℕ) (ps : Bytes) (n : ℕ) → length ps ≤ n → ShorterItem n (ranged_item a ps)
ranged_item-Shorter a [] n l = l
ranged_item-Shorter a (d ∷ []) n l = l
ranged_item-Shorter a (d ∷ z ∷ qs) n l = elim (Bool-cases (d == b'-')) [
  | inl e ↦ rw e (omega (arith, l))
  | inr e ↦ rw e l
]

escaped_item-Shorter : (ps : Bytes) (n : ℕ) → length ps ≤ n → ShorterItem n (escaped_item ps)
escaped_item-Shorter [] n l = tt
escaped_item-Shorter (q ∷ qs) n l = omega (arith, l)

pub next_item-Shorter :
    (a : ℕ) (ps : Bytes) (n : ℕ) → length ps ≤ n → ShorterItem n (next_item a ps)
unfolding next_item
next_item-Shorter a ps n l = elim (Bool-cases (a == b'\\')) [
  | inl e ↦ rw e (escaped_item-Shorter ps n l)
  | inr e ↦ elim (Bool-cases (a == b']')) [
    | inl f ↦ rw (e, f) l
    | inr f ↦ rw (e, f) (ranged_item-Shorter a ps n l)
  ]
]

ShorterClass-le :
    (m n : ℕ) (o : Option (Bool × Bytes)) → m ≤ n → ShorterClass m o → ShorterClass n o
ShorterClass-le m n none l s = tt
ShorterClass-le m n (some (b, qs)) l s = omega (arith, l, s)

take_item-Shorter :
    (nocase : Bool) (c : Option ℕ) (match : Bool) (i : Item)
    (next : Bytes → Bool → Option (Bool × Bytes)) (n : ℕ)
    → ShorterItem n i
    → ((qs : Bytes) (m : Bool) → ShorterClass (length qs) (next qs m))
    → ShorterClass n (take_item nocase c match i next)
unfolding take_item
take_item-Shorter nocase c match (finished qs) next n l k = l
take_item-Shorter nocase c match overrun next n l k = tt
take_item-Shorter nocase none match (escaped q qs) next n l k = tt
take_item-Shorter nocase none match (range a z qs) next n l k = tt
take_item-Shorter nocase none match (single a qs) next n l k = tt
take_item-Shorter nocase (some c) match (escaped q qs) next n l k =
    ShorterClass-le (length qs) n (next qs (match || q == c)) l (k qs (match || q == c))
take_item-Shorter nocase (some c) match (range a z qs) next n l k =
    ShorterClass-le (length qs) n (next qs (match || in_range nocase a z c)) l
      (k qs (match || in_range nocase a z c))
take_item-Shorter nocase (some c) match (single a qs) next n l k =
    ShorterClass-le (length qs) n (next qs (match || same_char nocase a c)) l
      (k qs (match || same_char nocase a c))

class_loop-Shorter :
    (fuel : ℕ) (nocase : Bool) (c : Option ℕ) (ps : Bytes) (match : Bool)
    → ShorterClass (length ps) (class_loop fuel nocase c ps match)
unfolding class_loop
class_loop-Shorter fuel nocase c [] match = omega arith
class_loop-Shorter zero nocase c (a ∷ ps) match = tt
class_loop-Shorter (suc fuel) nocase c (a ∷ ps) match =
    ShorterClass-le (length ps) (suc (length ps)) (class_loop (suc fuel) nocase c (a ∷ ps) match)
      (omega arith)
      (take_item-Shorter nocase c match (next_item a ps) (class_loop fuel nocase c) (length ps)
        (next_item-Shorter a ps (length ps) (omega arith)) (class_loop-Shorter fuel nocase c))

consumed-Shorter : (b : Bool) (qs : Bytes) (n : ℕ) → length qs ≤ n → Shorter n (consumed b qs)
consumed-Shorter true qs n l = l
consumed-Shorter false qs n l = tt

after_class-Shorter :
    (negated : Bool) (o : Option (Bool × Bytes)) (m n : ℕ)
    → m ≤ n
    → ShorterClass m o
    → Shorter n (after_class negated o)
after_class-Shorter negated none m n l s = tt
after_class-Shorter negated (some (b, qs)) m n l s =
    consumed-Shorter (if negated then not b else b) qs n (omega (arith, l, s))

class-Shorter :
    (nocase : Bool) (c : Option ℕ) (ps : Bytes) → Shorter (length ps) (class nocase c ps)
unfolding class
class-Shorter nocase c [] =
    after_class-Shorter false (class_loop 0 nocase c [] false) 0 0 (omega arith)
      (class_loop-Shorter 0 nocase c [] false)
class-Shorter nocase c (p ∷ ps) = elim (Bool-cases (p == b'^')) [
  | inl e ↦ rw e (
      after_class-Shorter true (class_loop (length ps) nocase c ps false) (length ps)
        (suc (length ps)) (omega arith) (class_loop-Shorter (length ps) nocase c ps false))
  | inr e ↦ rw e (
      after_class-Shorter false (class_loop (suc (length ps)) nocase c (p ∷ ps) false)
        (suc (length ps)) (suc (length ps)) (omega arith)
        (class_loop-Shorter (suc (length ps)) nocase c (p ∷ ps) false))
]

literal-Shorter :
    (nocase : Bool) (c : Option ℕ) (p : ℕ) (ps : Bytes) (n : ℕ)
    → length ps ≤ n
    → Shorter n (literal nocase c p ps)
literal-Shorter nocase none p ps n l = tt
literal-Shorter nocase (some c) p ps n l = consumed-Shorter (same_char nocase p c) ps n l

escape-Shorter :
    (nocase : Bool) (c : Option ℕ) (ps : Bytes) → Shorter (length ps) (escape nocase c ps)
escape-Shorter nocase c [] = literal-Shorter nocase c b'\\' [] 0 (omega arith)
escape-Shorter nocase c (q ∷ qs) = literal-Shorter nocase c q qs (suc (length qs)) (omega arith)

pub one_char-Shorter :
    (nocase : Bool) (p : ℕ) (ps : Bytes) (c : Option ℕ)
    → Shorter (length ps) (one_char nocase p ps c)
unfolding one_char
one_char-Shorter nocase p ps c = elim (Bool-cases (p == b'?')) [
  | inl e ↦ rw e (omega arith)
  | inr e ↦ elim (Bool-cases (p == b'[')) [
    | inl f ↦ rw (e, f) (class-Shorter nocase c ps)
    | inr f ↦ elim (Bool-cases (p == b'\\')) [
      | inl g ↦ rw (e, f, g) (escape-Shorter nocase c ps)
      | inr g ↦ rw (e, f, g) (literal-Shorter nocase c p ps (length ps) (omega arith))
    ]
  ]
]
