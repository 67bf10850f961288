-- ===== src/Glob/Tests.antt =====
-- Runs of stringmatchlen (src/vr_util.c), and its theorems at concrete patterns.
use myownproject.Base.{◌≡◌, refl, Bool, true, false, none, some, [], ◌∷◌, arith}
use myownproject.Util.{codes}
use myownproject.Glob.Class.{in_range, next_item, take_item, class_loop, class, one_char}
use myownproject.Glob.Match.{skip_stars, scan, round, match_loop, stringmatchlen}
use myownproject.Glob.Plain.{plain}
use myownproject.Glob.Equivalence.{stringmatchlen-plain}
use myownproject.Glob.Total.{open_escape, stringmatchlen_returns}

program : Unit {0}
unfolding in_range next_item take_item class_loop class one_char skip_stars scan round match_loop
    stringmatchlen open_escape
program = tt

matches : stringmatchlen (codes "h?l*o[a-c^]\\*") (codes "hello worldo^*") false ≡ some true
unfolding program
matches = refl

ignores_case : stringmatchlen (codes "[A-C]x") (codes "bX") true ≡ some true
unfolding program
ignores_case = refl

refuses : stringmatchlen (codes "a*b**c") (codes "axbyd") false ≡ some false
unfolding program
refuses = refl

-- The empty string has no character that is not an `a`.
empty_matches_class : stringmatchlen (codes "[^a]*") [] false ≡ some true
unfolding program
empty_matches_class = refl

-- The code reads behind the end of the empty string, and behind the end of the pattern.
reads_behind_string : stringmatchlen (codes "[^a]b") [] false ≡ none
unfolding program
reads_behind_string = refl

reads_behind_pattern : stringmatchlen (codes "[\\") (codes "a") false ≡ none
unfolding program
reads_behind_pattern = refl

stringmatchlen-plain_example :
    stringmatchlen (codes "a*[x-z]*") (b'a' ∷ codes "bby") false
    ≡ plain 9 false (codes "a*[x-z]*") (b'a' ∷ codes "bby")
stringmatchlen-plain_example =
    stringmatchlen-plain (codes "a*[x-z]*") b'a' (codes "bby") false 9 (omega arith)

stringmatchlen_returns_example :
    (b : Bool) × (stringmatchlen (codes "a*[x-z]*") (b'a' ∷ codes "bby") false ≡ some b)
unfolding program
stringmatchlen_returns_example =
    stringmatchlen_returns (codes "a*[x-z]*") b'a' (codes "bby") false refl
