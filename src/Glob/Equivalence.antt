-- ===== src/Glob/Equivalence.antt =====
-- src/vr_util.c: stringmatchlen is the plain matcher.
use myownproject.Base.{
  ℕ, zero, suc, ◌≤◌, ◌≡◌, refl, sym, ap, ◌∙◌, inl, inr, Bool, false, ◌&&◌, Option, some, [], ◌∷◌,
  ◌==◌, arith, length, Bool-cases,
}
use myownproject.Glob.Class.{Bytes, Consumed, outside, differs, taken, one_char}
use myownproject.Glob.Match.{
  Text, text, skip_stars, or_else, scan, star, after_char, round, match_loop, stringmatchlen,
}
use myownproject.Glob.Plain.{suffixes, plain_char, plain}
use myownproject.Glob.Shorter.{Shorter, one_char-Shorter}
use myownproject.Glob.Enough.{
  plain_enough, suffixes-skip_stars, suffixes_nil, plain-nil, plain_star, plain_other,
  skip_stars-cases, length-skip_stars,
}

-- What the matchers agree on: a string that is not empty, and patterns of up to `n` bytes.
abbrev Agree : ℕ → (Bytes → Text → Option Bool) → (Bytes → Bytes → Option Bool) → Type 0
Agree n f g = (p : Bytes) (c : ℕ) (cs : Bytes) → length p ≤ n → f p (text (c ∷ cs)) ≡ g p (c ∷ cs)

scan-suffixes :
    (f g : Bytes → Option Bool) (s : Bytes)
    → ((c : ℕ) (cs : Bytes) → f (c ∷ cs) ≡ g (c ∷ cs))
    → g [] ≡ some false
    → scan f s ≡ suffixes g s
unfolding scan suffixes
scan-suffixes f g [] e z = sym z
scan-suffixes f g (c ∷ cs) e z =
    ap (λ a. or_else a (scan f cs)) (e c cs) ∙ ap (or_else (g (c ∷ cs))) (scan-suffixes f g cs e z)

star-suffixes :
    (n : ℕ) (nocase : Bool) (ps : Bytes) (f : Bytes → Text → Option Bool) (s : Bytes)
    → length ps ≤ n
    → Agree n f (plain n nocase)
    → star (skip_stars ps) (text s) f ≡ suffixes (plain n nocase ps) s
star-suffixes n nocase ps f s l a =
    (elim (skip_stars-cases ps) [
      | inl e ↦
          ap (λ q. star q (text s) f) e
          ∙ sym (suffixes_nil n nocase s)
          ∙ ap (λ q. suffixes (plain n nocase q) s) (sym e)
      | inr (q, qs, e, g) ↦
          let short : suc (length qs) ≤ n = omega (arith, l, length-skip_stars ps, ap length e) in
          ap (λ q. star q (text s) f) e
          ∙ scan-suffixes (λ x. f (q ∷ qs) (text x)) (plain n nocase (q ∷ qs)) s
              (λ c cs. a (q ∷ qs) c cs short) (nothing n q qs short g)
          ∙ ap (λ q. suffixes (plain n nocase q) s) (sym e)
    ])
    ∙ sym (suffixes-skip_stars n nocase ps s l)
  where
    nothing :
        (m q : ℕ) (qs : Bytes)
        → suc (length qs) ≤ m
        → (q == b'*') ≡ false
        → plain m nocase (q ∷ qs) [] ≡ some false
    nothing zero q qs short g = absurd (omega arith)
    nothing (suc m) q qs short g = plain_other m nocase q qs [] g

after_char-plain_char :
    (k : Consumed) (n : ℕ) (nocase : Bool) (c : ℕ) (cs : Bytes) (f : Bytes → Text → Option Bool)
    → Shorter n k
    → Agree n f (plain n nocase)
    → after_char k (text (c ∷ cs)) f ≡ plain_char k cs (plain n nocase)
after_char-plain_char outside n nocase c cs f s a = refl
after_char-plain_char differs n nocase c cs f s a = refl
after_char-plain_char (taken qs) n nocase c [] f s a = sym (plain-nil n nocase qs s)
after_char-plain_char (taken qs) n nocase c (d ∷ ds) f s a = a qs d ds s

pub Shorter-le : (m n : ℕ) (k : Consumed) → m ≤ n → Shorter m k → Shorter n k
Shorter-le m n outside l s = tt
Shorter-le m n differs l s = tt
Shorter-le m n (taken qs) l s = omega (arith, l, s)

round-plain :
    (n : ℕ) (nocase : Bool) (p : ℕ) (ps : Bytes) (c : ℕ) (cs : Bytes)
    (f : Bytes → Text → Option Bool)
    → length ps ≤ n
    → Agree n f (plain n nocase)
    → round nocase p ps (text (c ∷ cs)) f ≡ plain (suc n) nocase (p ∷ ps) (c ∷ cs)
unfolding round
round-plain n nocase p ps c cs f l a = elim (Bool-cases (p == b'*')) [
  | inl e ↦
      rw (round, e)
        (star-suffixes n nocase ps f (c ∷ cs) l a ∙ sym (plain_star n nocase p ps (c ∷ cs) e))
  | inr e ↦
      let more : (p == b'?' && false) ≡ false = ground arith in
      rw (round, e, more)
        (after_char-plain_char (one_char nocase p ps (some c)) n nocase c cs f
            (Shorter-le (length ps) n (one_char nocase p ps (some c)) l
              (one_char-Shorter nocase p ps (some c)))
            a
          ∙ sym (plain_other n nocase p ps (c ∷ cs) e))
]

match_loop-plain : (n : ℕ) (nocase : Bool) → Agree n (match_loop n nocase) (plain n nocase)
unfolding match_loop plain
match_loop-plain n nocase [] c cs l = refl
match_loop-plain zero nocase (p ∷ ps) c cs l = absurd (omega arith)
match_loop-plain (suc n) nocase (p ∷ ps) c cs l =
    round-plain n nocase p ps c cs (match_loop n nocase) (omega arith) (match_loop-plain n nocase)

-- On a string that is not empty, stringmatchlen answers as the plain matcher does that tries every
-- suffix at every star, with at least as much fuel as the pattern has bytes.
pub stringmatchlen-plain :
    (pattern : Bytes) (c : ℕ) (cs : Bytes) (nocase : Bool) (fuel : ℕ)
    → length pattern ≤ fuel
    → stringmatchlen pattern (c ∷ cs) nocase ≡ plain fuel nocase pattern (c ∷ cs)
unfolding stringmatchlen
stringmatchlen-plain pattern c cs nocase fuel l =
    match_loop-plain (length pattern) nocase pattern c cs (omega arith)
    ∙ plain_enough (length pattern) fuel nocase pattern (c ∷ cs) (omega arith) l
