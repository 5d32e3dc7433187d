-- ===== src/Log/Pattern/Tests.antt =====
-- Patterns of src/log.cc.
use co_lib.Prelude.{◌≡◌, refl, List, [], ◌∷◌, some, true, false, codes}
use co_lib.Log.Pattern.{Part, text, format, Cut, parse_pattern, cut, read_str, read_fmt}
use co_lib.Log.Pattern.Printing.{print, parse_pattern-print}
use co_lib.Log.Pattern.Parsing.{parse_pattern-ends}

abbrev parts : List Part
parts =
    format (codes "d") (codes "%Y-%m-%d %H:%M:%S")
    ∷ text (codes " [")
    ∷ format (codes "p") []
    ∷ text (codes "] ")
    ∷ format (codes "m") []
    ∷ format (codes "n") []
    ∷ []

parse_pattern-print_test : parse_pattern (print parts) ≡ some (parts, false)
parse_pattern-print_test = parse_pattern-print parts refl

parse_pattern-ends_test : (r : Cut) × (parse_pattern (codes "%d{") ≡ some r)
parse_pattern-ends_test = parse_pattern-ends (codes "%d{")

-- A doubled percent sign gives a percent sign, but its second half starts a format all the same.
doubled_percent :
    parse_pattern (codes "100%%d") ≡ some (text (codes "100%") ∷ format (codes "d") [] ∷ [], false)
unfolding parse_pattern cut read_str
doubled_percent = refl

-- An argument without its closing brace.
no_brace :
    parse_pattern (codes "%d{a")
    ≡ some (text (codes "<<pattern_error>>") ∷ text (codes "d{a") ∷ [], true)
unfolding parse_pattern cut read_str read_fmt
no_brace = refl
