-- ===== src/Glob/Match.antt =====
-- src/vr_util.c: stringmatchlen.
use myownproject.Base.{
  ℕ, zero, suc, Bool, true, false, ◌&&◌, Option, none, some, [], ◌∷◌, ◌==◌, if◌then◌else◌, is_empty,
  length,
}
use myownproject.Glob.Class.{Bytes, Consumed, outside, differs, taken, one_char}

-- What is left of the string, or the place behind its end, where its length is negative.
pub data Text : Type 0 where
  text : Bytes → Text
  past : Text

-- A byte of 0 stands at the end of the string.
abbrev pub current : Text → Option ℕ
current (text []) = some 0
current (text (c ∷ cs)) = some c
current past = none

abbrev pub advance : Text → Text
advance (text []) = past
advance (text (c ∷ cs)) = text cs
advance past = past

-- `stringLen == 0`.
abbrev pub is_end : Text → Bool
is_end (text []) = true
is_end (text (c ∷ cs)) = false
is_end past = false

unfoldable pub skip_stars : Bytes → Bytes
skip_stars [] = []
skip_stars (p ∷ ps) = if p == b'*' then skip_stars ps else p ∷ ps

abbrev pub or_else : Option Bool → Option Bool → Option Bool
or_else none other = none
or_else (some true) other = some true
or_else (some false) other = other

-- The loop `while(stringLen)` behind a `*`.
unfoldable pub scan : (Bytes → Option Bool) → Bytes → Option Bool
scan try [] = some false
scan try (c ∷ cs) = or_else (try (c ∷ cs)) (scan try cs)

-- `none` where the code leaves the string: its length is negative, and the loop does not end.
abbrev pub star_loop : (Text → Option Bool) → Text → Option Bool
star_loop try (text s) = scan (λ l. try (text l)) s
star_loop try past = or_else (try past) none

abbrev pub star : Bytes → Text → (Bytes → Text → Option Bool) → Option Bool
star [] t next = some true
star (q ∷ qs) t next = star_loop (next (q ∷ qs)) t

-- The end of the loop: at the end of the string only stars may be left.
abbrev pub rest : Bytes → Text → (Bytes → Text → Option Bool) → Option Bool
rest ps t next = if is_end t then some (is_empty (skip_stars ps)) else next ps t

abbrev pub after_char : Consumed → Text → (Bytes → Text → Option Bool) → Option Bool
after_char outside t next = none
after_char differs t next = some false
after_char (taken ps) t next = rest ps (advance t) next

unfoldable pub round : Bool → ℕ → Bytes → Text → (Bytes → Text → Option Bool) → Option Bool
round nocase p ps t next =
    if p == b'*'
    then star (skip_stars ps) t next
    else if p == b'?' && is_end t
    then some false
    else after_char (one_char nocase p ps (current t)) t next

-- `none` where the code reads behind the byte that ends the pattern or the string, or lacks fuel.
unfoldable pub match_loop : ℕ → Bool → Bytes → Text → Option Bool
match_loop fuel nocase [] t = some (is_end t)
match_loop zero nocase (p ∷ ps) t = none
match_loop (suc fuel) nocase (p ∷ ps) t = round nocase p ps t (match_loop fuel nocase)

unfoldable pub stringmatchlen : Bytes → Bytes → Bool → Option Bool
stringmatchlen pattern string nocase = match_loop (length pattern) nocase pattern (text string)
