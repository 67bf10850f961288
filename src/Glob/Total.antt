-- ===== src/Glob/Total.antt =====
-- src/vr_util.c: stringmatchlen stays inside its pattern and its string, and returns.
use myownproject.Base.{
  ℕ, zero, suc, ◌≤◌, ◌≡◌, refl, ◌∙◌, inl, inr, Bool, true, false, not, ◌||◌, Option, none, some, [],
  ◌∷◌, ◌==◌, if◌then◌else◌, arith, is_empty, length, Bool-cases,
}
use myownproject.Glob.Class.{
  Bytes, Item, finished, overrun, escaped, range, single, next_item, take_item, class_loop,
  Consumed, outside, differs, taken, class, one_char, escaped_item, ranged_item, after_class,
  consumed, escape, in_range, same_char,
}
use myownproject.Glob.Match.{or_else, stringmatchlen}
use myownproject.Glob.Plain.{suffixes, plain_char, plain_one, plain_round, plain}
use myownproject.Glob.Shorter.{Shorter, one_char-Shorter, next_item-Shorter, ShorterItem}
use myownproject.Glob.Enough.{plain_star, plain_other}
use myownproject.Glob.Equivalence.{Shorter-le, stringmatchlen-plain}

-- Whether the last byte of a pattern is a backslash.
unfoldable pub open_escape : Bytes → Bool
open_escape [] = false
open_escape (p ∷ []) = p == b'\\'
open_escape (p ∷ q ∷ qs) = open_escape (q ∷ qs)

open_escape_tail : (p : ℕ) (ps : Bytes) → open_escape (p ∷ ps) ≡ false → open_escape ps ≡ false
unfolding open_escape
open_escape_tail p [] e = refl
open_escape_tail p (q ∷ qs) e = e

-- A place stays inside the pattern.
abbrev Inside : Consumed → Type 0
Inside (taken qs) = open_escape qs ≡ false
Inside outside = ⊥
Inside differs = Unit {0}

abbrev InsideClass : Option (Bool × Bytes) → Type 0
InsideClass none = ⊥
InsideClass (some (m, qs)) = open_escape qs ≡ false

abbrev InsideItem : Item → Type 0
InsideItem (finished qs) = open_escape qs ≡ false
InsideItem overrun = ⊥
InsideItem (escaped q qs) = open_escape qs ≡ false
InsideItem (range a z qs) = open_escape qs ≡ false
InsideItem (single a qs) = open_escape qs ≡ false

ranged_item-Inside : (a : ℕ) (ps : Bytes) → open_escape ps ≡ false → InsideItem (ranged_item a ps)
ranged_item-Inside a [] h = h
ranged_item-Inside a (d ∷ []) h = h
ranged_item-Inside a (d ∷ z ∷ qs) h = elim (Bool-cases (d == b'-')) [
  | inl e ↦ rw e (open_escape_tail z qs (open_escape_tail d (z ∷ qs) h))
  | inr e ↦ rw e h
]

escaped_item-Inside :
    (a : ℕ) (ps : Bytes)
    → (a == b'\\') ≡ true
    → open_escape (a ∷ ps) ≡ false
    → InsideItem (escaped_item ps)
unfolding open_escape
escaped_item-Inside a [] e h = ground (arith, e, h)
escaped_item-Inside a (q ∷ qs) e h = open_escape_tail q qs h

next_item-Inside : (a : ℕ) (ps : Bytes) → open_escape (a ∷ ps) ≡ false → InsideItem (next_item a ps)
unfolding next_item
next_item-Inside a ps h = elim (Bool-cases (a == b'\\')) [
  | inl e ↦ rw e (escaped_item-Inside a ps e h)
  | inr e ↦ elim (Bool-cases (a == b']')) [
    | inl f ↦ rw (e, f) (open_escape_tail a ps h)
    | inr f ↦ rw (e, f) (ranged_item-Inside a ps (open_escape_tail a ps h))
  ]
]

take_item-Inside :
    (nocase : Bool) (c : ℕ) (match : Bool) (i : Item) (n : ℕ)
    (next : Bytes → Bool → Option (Bool × Bytes))
    → InsideItem i
    → ShorterItem n i
    → ((qs : Bytes) (m : Bool) → length qs ≤ n → open_escape qs ≡ false → InsideClass (next qs m))
    → InsideClass (take_item nocase (some c) match i next)
unfolding take_item
take_item-Inside nocase c match (finished qs) n next h l k = h
take_item-Inside nocase c match overrun n next h l k = h
take_item-Inside nocase c match (escaped q qs) n next h l k = k qs (match || q == c) l h
take_item-Inside nocase c match (range a z qs) n next h l k =
    k qs (match || in_range nocase a z c) l h
take_item-Inside nocase c match (single a qs) n next h l k =
    k qs (match || same_char nocase a c) l h

class_loop-Inside :
    (fuel : ℕ) (nocase : Bool) (c : ℕ) (ps : Bytes) (match : Bool)
    → length ps ≤ fuel
    → open_escape ps ≡ false
    → InsideClass (class_loop fuel nocase (some c) ps match)
unfolding class_loop
class_loop-Inside fuel nocase c [] match l h = h
class_loop-Inside zero nocase c (a ∷ ps) match l h = absurd (omega arith)
class_loop-Inside (suc fuel) nocase c (a ∷ ps) match l h =
    take_item-Inside nocase c match (next_item a ps) fuel (class_loop fuel nocase (some c))
      (next_item-Inside a ps h) (next_item-Shorter a ps fuel (omega arith))
      (class_loop-Inside fuel nocase c)

consumed-Inside : (b : Bool) (qs : Bytes) → open_escape qs ≡ false → Inside (consumed b qs)
consumed-Inside true qs h = h
consumed-Inside false qs h = tt

after_class-Inside :
    (negated : Bool) (o : Option (Bool × Bytes)) → InsideClass o → Inside (after_class negated o)
after_class-Inside negated none h = h
after_class-Inside negated (some (b, qs)) h = consumed-Inside (if negated then not b else b) qs h

class-Inside :
    (nocase : Bool) (c : ℕ) (ps : Bytes)
    → open_escape ps ≡ false
    → Inside (class nocase (some c) ps)
unfolding class
class-Inside nocase c [] h =
    after_class-Inside false (class_loop 0 nocase (some c) [] false)
      (class_loop-Inside 0 nocase c [] false (omega arith) h)
class-Inside nocase c (p ∷ ps) h = elim (Bool-cases (p == b'^')) [
  | inl e ↦ rw e (
      after_class-Inside true (class_loop (length ps) nocase (some c) ps false)
        (class_loop-Inside (length ps) nocase c ps false (omega arith) (open_escape_tail p ps h)))
  | inr e ↦ rw e (
      after_class-Inside false (class_loop (suc (length ps)) nocase (some c) (p ∷ ps) false)
        (class_loop-Inside (suc (length ps)) nocase c (p ∷ ps) false (omega arith) h))
]

escape-Inside :
    (nocase : Bool) (c : ℕ) (ps : Bytes)
    → open_escape ps ≡ false
    → Inside (escape nocase (some c) ps)
escape-Inside nocase c [] h = consumed-Inside (same_char nocase b'\\' c) [] h
escape-Inside nocase c (q ∷ qs) h =
    consumed-Inside (same_char nocase q c) qs (open_escape_tail q qs h)

one_char-Inside :
    (nocase : Bool) (p : ℕ) (ps : Bytes) (c : ℕ)
    → open_escape ps ≡ false
    → Inside (one_char nocase p ps (some c))
unfolding one_char
one_char-Inside nocase p ps c h = elim (Bool-cases (p == b'?')) [
  | inl e ↦ rw e h
  | inr e ↦ elim (Bool-cases (p == b'[')) [
    | inl f ↦ rw (e, f) (class-Inside nocase c ps h)
    | inr f ↦ elim (Bool-cases (p == b'\\')) [
      | inl g ↦ rw (e, f, g) (escape-Inside nocase c ps h)
      | inr g ↦ rw (e, f, g) (consumed-Inside (same_char nocase p c) ps h)
    ]
  ]
]

-- A matcher that answers.
abbrev Answers : Option Bool → Type 0
Answers o = (b : Bool) × (o ≡ some b)

suffixes-Answers :
    (f : Bytes → Option Bool) (s : Bytes) → ((l : Bytes) → Answers (f l)) → Answers (suffixes f s)
unfolding suffixes
suffixes-Answers f [] k = k []
suffixes-Answers f (c ∷ cs) k =
    (let (a, e) = k (c ∷ cs) in
      let (b, g) = suffixes-Answers f cs k in join (f (c ∷ cs)) (suffixes f cs) a b e g)
  where
    join : (o r : Option Bool) (a b : Bool) → o ≡ some a → r ≡ some b → Answers (or_else o r)
    join o r true b e g = (true, rw e refl)
    join o r false b e g = (b, rw (e, g) refl)

plain_char-Answers :
    (k : Consumed) (n : ℕ) (cs : Bytes) (next : Bytes → Bytes → Option Bool)
    → Inside k
    → Shorter n k
    → ((qs l : Bytes) → length qs ≤ n → open_escape qs ≡ false → Answers (next qs l))
    → Answers (plain_char k cs next)
plain_char-Answers outside n cs next i s a = elim i [ ]
plain_char-Answers differs n cs next i s a = (false, refl)
plain_char-Answers (taken qs) n cs next i s a = a qs cs s i

plain_one-Answers :
    (n : ℕ) (nocase : Bool) (p : ℕ) (ps s : Bytes) (next : Bytes → Bytes → Option Bool)
    → length ps ≤ n
    → open_escape (p ∷ ps) ≡ false
    → ((qs l : Bytes) → length qs ≤ n → open_escape qs ≡ false → Answers (next qs l))
    → Answers (plain_one nocase p ps s next)
plain_one-Answers n nocase p ps [] next l h a = (false, refl)
plain_one-Answers n nocase p ps (c ∷ cs) next l h a =
    plain_char-Answers (one_char nocase p ps (some c)) n cs next
      (one_char-Inside nocase p ps c (open_escape_tail p ps h))
      (Shorter-le (length ps) n (one_char nocase p ps (some c)) l
        (one_char-Shorter nocase p ps (some c)))
      a

plain-Answers :
    (n : ℕ) (nocase : Bool) (p s : Bytes)
    → length p ≤ n
    → open_escape p ≡ false
    → Answers (plain n nocase p s)
unfolding plain plain_round
plain-Answers n nocase [] s l h = (is_empty s, refl)
plain-Answers zero nocase (p ∷ ps) s l h = absurd (omega arith)
plain-Answers (suc n) nocase (p ∷ ps) s l h = elim (Bool-cases (p == b'*')) [
  | inl e ↦ rw (plain_star n nocase p ps s e) (
      suffixes-Answers (plain n nocase ps) s
        (λ x. plain-Answers n nocase ps x (omega arith) (open_escape_tail p ps h)))
  | inr e ↦ rw (plain_other n nocase p ps s e) (
      plain_one-Answers n nocase p ps s (plain n nocase) (omega arith) h
        (λ qs x r o. plain-Answers n nocase qs x r o))
]

-- On a string that is not empty, with a pattern that does not end in a backslash, stringmatchlen
-- returns an answer, and reads no further than the bytes of 0 behind the pattern and the string.
pub stringmatchlen_returns :
    (pattern : Bytes) (c : ℕ) (cs : Bytes) (nocase : Bool)
    → open_escape pattern ≡ false
    → (b : Bool) × (stringmatchlen pattern (c ∷ cs) nocase ≡ some b)
stringmatchlen_returns pattern c cs nocase h =
    (let n = length pattern in
      let l : length pattern ≤ n = omega arith in
      let (b, e) = plain-Answers n nocase pattern (c ∷ cs) l h in
      (b, stringmatchlen-plain pattern c cs nocase n l ∙ e))
