-- ===== src/Glob/Plain.antt =====
-- A plain matcher: a star tries every suffix of the string. It uses what src/vr_util.c makes of one
-- character, and has neither the skipping of stars nor the early ends of stringmatchlen.
use myownproject.Base.{
  ℕ, zero, suc, Bool, false, Option, none, some, [], ◌∷◌, ◌==◌, if◌then◌else◌, is_empty,
}
use myownproject.Glob.Class.{Bytes, Consumed, outside, differs, taken, one_char}
use myownproject.Glob.Match.{or_else}

unfoldable pub suffixes : (Bytes → Option Bool) → Bytes → Option Bool
suffixes try [] = try []
suffixes try (c ∷ cs) = or_else (try (c ∷ cs)) (suffixes try cs)

abbrev pub plain_char : Consumed → Bytes → (Bytes → Bytes → Option Bool) → Option Bool
plain_char outside cs next = none
plain_char differs cs next = some false
plain_char (taken qs) cs next = next qs cs

abbrev pub plain_one : Bool → ℕ → Bytes → Bytes → (Bytes → Bytes → Option Bool) → Option Bool
plain_one nocase p ps [] next = some false
plain_one nocase p ps (c ∷ cs) next = plain_char (one_char nocase p ps (some c)) cs next

unfoldable pub plain_round : Bool → ℕ → Bytes → Bytes → (Bytes → Bytes → Option Bool) → Option Bool
plain_round nocase p ps s next =
    if p == b'*' then suffixes (next ps) s else plain_one nocase p ps s next

unfoldable pub plain : ℕ → Bool → Bytes → Bytes → Option Bool
plain fuel nocase [] s = some (is_empty s)
plain zero nocase (p ∷ ps) s = none
plain (suc fuel) nocase (p ∷ ps) s = plain_round nocase p ps s (plain fuel nocase)
