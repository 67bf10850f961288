-- ===== src/Glob/Enough.antt =====
-- The plain matcher needs no more fuel than its pattern has bytes, and runs of stars are one star.
use myownproject.Base.{
  ℕ, zero, suc, ◌≤◌, ◌≡◌, refl, sym, ap, ◌∙◌, ◌⊎◌, inl, inr, Bool, true, false, Option, none, some,
  [], ◌∷◌, ◌==◌, arith, is_empty, length, Bool-cases,
}
use myownproject.Glob.Class.{Bytes, Consumed, outside, differs, taken, one_char}
use myownproject.Glob.Match.{or_else, skip_stars}
use myownproject.Glob.Plain.{suffixes, plain_char, plain_one, plain_round, plain}
use myownproject.Glob.Shorter.{Shorter, one_char-Shorter}

pub suffixes_congr :
    (f g : Bytes → Option Bool) (s : Bytes)
    → ((l : Bytes) → f l ≡ g l)
    → suffixes f s ≡ suffixes g s
unfolding suffixes
suffixes_congr f g [] e = e []
suffixes_congr f g (c ∷ cs) e =
    ap (λ a. or_else a (suffixes f cs)) (e (c ∷ cs))
    ∙ ap (or_else (g (c ∷ cs))) (suffixes_congr f g cs e)

plain_char_congr :
    (k : Consumed) (n : ℕ) (cs : Bytes) (f g : Bytes → Bytes → Option Bool)
    → Shorter n k
    → ((qs : Bytes) (l : Bytes) → length qs ≤ n → f qs l ≡ g qs l)
    → plain_char k cs f ≡ plain_char k cs g
plain_char_congr outside n cs f g s e = refl
plain_char_congr differs n cs f g s e = refl
plain_char_congr (taken qs) n cs f g s e = e qs cs s

plain_round_congr :
    (nocase : Bool) (p : ℕ) (ps s : Bytes) (f g : Bytes → Bytes → Option Bool)
    → ((qs : Bytes) (l : Bytes) → length qs ≤ length ps → f qs l ≡ g qs l)
    → plain_round nocase p ps s f ≡ plain_round nocase p ps s g
unfolding plain_round
plain_round_congr nocase p ps s f g e = elim (Bool-cases (p == b'*')) [
  | inl h ↦ rw h (suffixes_congr (f ps) (g ps) s (λ l. e ps l (omega arith)))
  | inr h ↦ rw h (one s)
]
  where
    one : (s : Bytes) → plain_one nocase p ps s f ≡ plain_one nocase p ps s g
    one [] = refl
    one (c ∷ cs) =
        plain_char_congr (one_char nocase p ps (some c)) (length ps) cs f g
          (one_char-Shorter nocase p ps (some c)) e

pub plain_enough :
    (m n : ℕ) (nocase : Bool) (p s : Bytes)
    → length p ≤ m
    → length p ≤ n
    → plain m nocase p s ≡ plain n nocase p s
unfolding plain
plain_enough m n nocase [] s k l = refl
plain_enough zero n nocase (p ∷ ps) s k l = absurd (omega arith)
plain_enough (suc m) zero nocase (p ∷ ps) s k l = absurd (omega arith)
plain_enough (suc m) (suc n) nocase (p ∷ ps) s k l =
    plain_round_congr nocase p ps s (plain m nocase) (plain n nocase)
      (λ qs x r. plain_enough m n nocase qs x (omega (arith, k, r)) (omega (arith, l, r)))

or_else_twice : (a b : Option Bool) → or_else (or_else a b) b ≡ or_else a b
or_else_twice none b = refl
or_else_twice (some true) b = refl
or_else_twice (some false) none = refl
or_else_twice (some false) (some true) = refl
or_else_twice (some false) (some false) = refl

-- Two stars are one.
suffixes-suffixes : (f : Bytes → Option Bool) (s : Bytes) → suffixes (suffixes f) s ≡ suffixes f s
unfolding suffixes
suffixes-suffixes f [] = refl
suffixes-suffixes f (c ∷ cs) =
    ap (or_else (suffixes f (c ∷ cs))) (suffixes-suffixes f cs)
    ∙ or_else_twice (f (c ∷ cs)) (suffixes f cs)

pub length-skip_stars : (ps : Bytes) → length (skip_stars ps) ≤ length ps
unfolding skip_stars
length-skip_stars [] = omega arith
length-skip_stars (p ∷ ps) = elim (Bool-cases (p == b'*')) [
  | inl e ↦ rw e (omega (arith, length-skip_stars ps))
  | inr e ↦ rw e (omega arith)
]

pub plain_star :
    (n : ℕ) (nocase : Bool) (p : ℕ) (ps s : Bytes)
    → (p == b'*') ≡ true
    → plain (suc n) nocase (p ∷ ps) s ≡ suffixes (plain n nocase ps) s
unfolding plain plain_round
plain_star n nocase p ps s e = rw (plain, plain_round, e) refl

pub plain_other :
    (n : ℕ) (nocase : Bool) (p : ℕ) (ps s : Bytes)
    → (p == b'*') ≡ false
    → plain (suc n) nocase (p ∷ ps) s ≡ plain_one nocase p ps s (plain n nocase)
unfolding plain plain_round
plain_other n nocase p ps s e = rw (plain, plain_round, e) refl

skip_star : (p : ℕ) (ps : Bytes) → (p == b'*') ≡ true → skip_stars (p ∷ ps) ≡ skip_stars ps
unfolding skip_stars
skip_star p ps e = rw (skip_stars, e) refl

skip_none : (p : ℕ) (ps : Bytes) → (p == b'*') ≡ false → skip_stars (p ∷ ps) ≡ p ∷ ps
unfolding skip_stars
skip_none p ps e = rw (skip_stars, e) refl

-- The star loop may start behind all stars.
pub suffixes-skip_stars :
    (n : ℕ) (nocase : Bool) (p s : Bytes)
    → length p ≤ n
    → suffixes (plain n nocase p) s ≡ suffixes (plain n nocase (skip_stars p)) s
unfolding skip_stars
suffixes-skip_stars n nocase [] s l = refl
suffixes-skip_stars zero nocase (p ∷ ps) s l = absurd (omega arith)
suffixes-skip_stars (suc n) nocase (p ∷ ps) s l = elim (Bool-cases (p == b'*')) [
  | inl e ↦
      suffixes_congr (plain (suc n) nocase (p ∷ ps)) (suffixes (plain n nocase ps)) s
        (λ x. plain_star n nocase p ps x e)
      ∙ suffixes-suffixes (plain n nocase ps) s
      ∙ suffixes-skip_stars n nocase ps s (omega arith)
      ∙ suffixes_congr (plain n nocase (skip_stars ps)) (plain (suc n) nocase (skip_stars ps)) s
          (λ x.
            plain_enough n (suc n) nocase (skip_stars ps) x (omega (arith, l, length-skip_stars ps))
              (omega (arith, l, length-skip_stars ps)))
      ∙ ap (λ q. suffixes (plain (suc n) nocase q) s) (sym (skip_star p ps e))
  | inr e ↦ ap (λ q. suffixes (plain (suc n) nocase q) s) (sym (skip_none p ps e))
]

pub suffixes_nil : (n : ℕ) (nocase : Bool) (s : Bytes) → suffixes (plain n nocase []) s ≡ some true
unfolding suffixes plain
suffixes_nil n nocase [] = refl
suffixes_nil n nocase (c ∷ cs) = suffixes_nil n nocase cs

-- The empty string matches stars alone.
pub plain-nil :
    (n : ℕ) (nocase : Bool) (p : Bytes)
    → length p ≤ n
    → plain n nocase p [] ≡ some (is_empty (skip_stars p))
unfolding suffixes plain skip_stars
plain-nil n nocase [] l = refl
plain-nil zero nocase (p ∷ ps) l = absurd (omega arith)
plain-nil (suc n) nocase (p ∷ ps) l = elim (Bool-cases (p == b'*')) [
  | inl e ↦
      plain_star n nocase p ps [] e
      ∙ plain-nil n nocase ps (omega arith)
      ∙ ap (λ q. some (is_empty q)) (sym (skip_star p ps e))
  | inr e ↦ plain_other n nocase p ps [] e ∙ ap (λ q. some (is_empty q)) (sym (skip_none p ps e))
]

-- Behind the stars stands another character, or nothing.
pub skip_stars-cases :
    (p : Bytes)
    → (skip_stars p ≡ [])
      ⊎ ((q : ℕ) × (qs : Bytes) × (skip_stars p ≡ q ∷ qs) × ((q == b'*') ≡ false))
unfolding skip_stars
skip_stars-cases [] = inl refl
skip_stars-cases (p ∷ ps) = elim (Bool-cases (p == b'*')) [
  | inl e ↦ elim (skip_stars-cases ps) [
    | inl f ↦ inl (skip_star p ps e ∙ f)
    | inr (q, qs, f, g) ↦ inr (q, qs, skip_star p ps e ∙ f, g)
  ]
  | inr e ↦ inr (p, ps, skip_none p ps e, e)
]
