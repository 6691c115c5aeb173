-- ===== src/Semver.antt =====
-- src/nodus/tooling/semver.py: versions, comparators and ranges. A raised `ValueError` is `none`.
pub mod Accepted
pub mod Laws
pub mod Order
pub mod Ranges
pub mod Tests
use Prim.Native.String.{String}
use text.Mathlib.Text.{◌==◌ as str_eq}
use nodus.Prelude.{
  ℕ, zero, suc, ◌+◌, Bool, true, false, not, ◌&&◌, ◌||◌, Option, none, some, List, [], ◌∷◌, ◌++◌,
  ltb, ◌==◌, if◌then◌else◌,
}
use nodus.Prelude.Monad.{◌>>=◌}
use nodus.Text.{Text, all_digits, int_from, split, starts_with, str, strip}

pub record Version : Type 0 where
  pub major : ℕ
  pub minor : ℕ
  pub patch : ℕ

abbrev pub version : ℕ → ℕ → ℕ → Version
version a b c = record { major = a; minor = b; patch = c }

-- the order that `dataclass(order=True)` gives: that of the tuples of fields
unfoldable pub lt : Version → Version → Bool
lt a b =
    ltb a.major b.major
    || ((a.major == b.major)
        && (ltb a.minor b.minor || ((a.minor == b.minor) && ltb a.patch b.patch)))

unfoldable pub eq : Version → Version → Bool
eq a b = (a.major == b.major) && ((a.minor == b.minor) && (a.patch == b.patch))

unfoldable pub le : Version → Version → Bool
unfolding lt eq
le a b = lt a b || eq a b

-- the loop over the parts: an empty part and one that is not of digits raise
unfoldable pub values : List Text → Option (List ℕ)
values [] = some []
values ([] ∷ ps) = none
values ((c ∷ s) ∷ ps) =
    if all_digits (c ∷ s) then (do vs ← values ps; some (int_from 0 (c ∷ s) ∷ vs)) else none

-- the padding with zeros, and the test for too many values
unfoldable pub of_values : List ℕ → Option Version
of_values [] = some (version 0 0 0)
of_values (a ∷ []) = some (version a 0 0)
of_values (a ∷ b ∷ []) = some (version a b 0)
of_values (a ∷ b ∷ c ∷ []) = some (version a b c)
of_values (a ∷ b ∷ c ∷ d ∷ vs) = none

unfoldable pub parse : Text → Option Version
unfolding values of_values
parse text = do vs ← values (split b'.' (strip text)); of_values vs

-- Version.__str__
unfoldable pub str_version : Version → Text
str_version v = str v.major ++ b'.' ∷ (str v.minor ++ b'.' ∷ str v.patch)

pub record Comparator : Type 0 where
  pub op : String
  pub version : Version

abbrev pub comparator : String → Version → Comparator
comparator o v = record { op = o; version = v }

-- Comparator.matches
unfoldable pub matches : Comparator → Version → Option Bool
unfolding eq lt le
matches c value =
    if str_eq c.op "=="
    then some (eq value c.version)
    else if str_eq c.op ">"
    then some (lt c.version value)
    else if str_eq c.op ">="
    then some (le c.version value)
    else if str_eq c.op "<"
    then some (lt value c.version)
    else if str_eq c.op "<="
    then some (le value c.version)
    else none

-- VersionRange.matches: `all` stops at the first comparator that fails
unfoldable pub range_matches : List Comparator → Version → Option Bool
range_matches [] value = some true
range_matches (c ∷ cs) value =
    let rest = range_matches cs value in matches c value >>= λ b. if b then rest else some false

unfoldable pub caret_upper : Version → Version
caret_upper base =
    if ltb 0 base.major
    then version (base.major + 1) 0 0
    else if ltb 0 base.minor
    then version 0 (base.minor + 1) 0
    else version 0 0 (base.patch + 1)

-- `part[len(candidate):]`, one of the slices of the loop over the candidates
unfoldable pub rest_of : ℕ → Text → Text
rest_of zero s = s
rest_of (suc n) [] = []
rest_of (suc n) (c ∷ s) = rest_of n s

-- the body of the loop over the parts of a range
unfoldable pub parse_part : Text → Option Comparator
unfolding rest_of
parse_part part =
    if starts_with (b'>' ∷ b'=' ∷ []) part
    then (do v ← parse (strip (rest_of 2 part)); some (comparator ">=" v))
    else if starts_with (b'<' ∷ b'=' ∷ []) part
    then (do v ← parse (strip (rest_of 2 part)); some (comparator "<=" v))
    else if starts_with (b'>' ∷ []) part
    then (do v ← parse (strip (rest_of 1 part)); some (comparator ">" v))
    else if starts_with (b'<' ∷ []) part
    then (do v ← parse (strip (rest_of 1 part)); some (comparator "<" v))
    else if starts_with (b'=' ∷ b'=' ∷ []) part
    then (do v ← parse (strip (rest_of 2 part)); some (comparator "==" v))
    else (do v ← parse part; some (comparator "==" v))

unfoldable pub parse_parts : List Text → Option (List Comparator)
parse_parts [] = some []
parse_parts (p ∷ ps) = do c ← parse_part p; cs ← parse_parts ps; some (c ∷ cs)

abbrev keep_part : Text → List Text → List Text
keep_part [] ps = ps
keep_part (c ∷ s) ps = (c ∷ s) ∷ ps

-- [part.strip() for part in raw.split(",") if part.strip()]
unfoldable pub kept_parts : List Text → List Text
kept_parts [] = []
kept_parts (p ∷ ps) = keep_part (strip p) (kept_parts ps)

abbrev pub nonempty_range : List Text → Option (List Comparator)
nonempty_range [] = none
nonempty_range (p ∷ ps) = parse_parts (p ∷ ps)

-- VersionRange.parse
unfoldable pub parse_range : Text → Option (List Comparator)
unfolding caret_upper kept_parts parse_parts
parse_range text =
    let raw = strip text in
    if starts_with (b'^' ∷ []) raw
    then (do
      base ← parse (rest_of 1 raw)
      some (comparator ">=" base ∷ comparator "<" (caret_upper base) ∷ []))
    else if starts_with (b'~' ∷ []) raw
    then (do
      base ← parse (rest_of 1 raw)
      some (comparator ">=" base ∷ comparator "<" (version base.major (base.minor + 1) 0) ∷ []))
    else nonempty_range (kept_parts (split b',' raw))
