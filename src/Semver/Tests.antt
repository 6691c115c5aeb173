-- ===== src/Semver/Tests.antt =====
-- Runs of the version tools, and their theorems at concrete versions.
use Prim.Native.Char.{code}
use nodus.Prelude.{◌≡◌, refl, String, true, false, none, some, [], ◌∷◌}
use nodus.Text.{Text, is_space, is_digit, all_digits, strip, split, int_from, starts_with}
use nodus.Semver.{
  version, le, parse, str_version, matches, range_matches, parse_range, rest_of, parse_part,
  comparator,
}
use nodus.Semver.Laws.{parse-str_version}
use nodus.Semver.Ranges.{Answers, SameLeading, caret_range, range_answer}

codes : String → Text
codes String.[] = []
codes (String.◌∷◌ c s) = code c ∷ codes s

parse_short : parse (codes " 1.20 ") ≡ some (version 1 20 0)
unfolding parse codes strip split int_from all_digits is_digit is_space
parse_short = refl

parse_errors :
    (parse (codes "1..2") ≡ none) × (parse (codes "1.2.3.4") ≡ none) × (parse (codes "1.x") ≡ none)
unfolding parse codes strip split int_from all_digits is_digit is_space
parse_errors = (refl, refl, refl)

answers :
    (range_answer (codes "^1.2, ") (version 1 9 0) ≡ none)
    × (range_answer (codes ">=1.2, <1.9 ,") (version 1 9 0) ≡ some false)
    × (range_answer (codes "~1.2") (version 1 2 7) ≡ some true)
unfolding parse_range range_matches matches parse codes strip split int_from all_digits is_digit
    is_space starts_with rest_of parse_part
answers = (refl, refl, refl)

parse-str_version_example : parse (str_version (version 1 20 3)) ≡ some (version 1 20 3)
parse-str_version_example = parse-str_version (version 1 20 3)

caret_range_example :
    Answers
      (b'^' ∷ str_version (version 0 2 3))
      (version 0 2 9)
      ((le (version 0 2 3) (version 0 2 9) ≡ true) × SameLeading (version 0 2 3) (version 0 2 9))
caret_range_example = caret_range (version 0 2 3) (version 0 2 9)

parse_two :
    parse_range (codes ">1.0,<=2")
    ≡ some (comparator ">" (version 1 0 0) ∷ comparator "<=" (version 2 0 0) ∷ [])
unfolding parse_range parse codes strip split int_from all_digits is_digit is_space starts_with
    rest_of parse_part
parse_two = refl
