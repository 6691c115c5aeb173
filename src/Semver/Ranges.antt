-- ===== src/Semver/Ranges.antt =====
-- What the texts of ranges mean.
use nodus.Prelude.{
  ℕ, ◌+◌, ◌≤◌, ◌<◌, ◌≡◌, ◌↔◌, ◌⊎◌, refl, ap, ◌∙◌, Bool, true, false, ◌&&◌, Option, some, List, [],
  ◌∷◌, ◌++◌, All-append, arith, ◌==◌,
}
use nodus.Prelude.Monad.{◌>>=◌}
use nodus.Text.{Text, is_digit, is_space, split, starts_with, strip}
use nodus.Text.Laws.{Lacks, strip-Lacks, split-Lacks, split-append}
use nodus.Semver.{
  Version, version, lt, eq, le, str_version, Comparator, comparator, matches, range_matches,
  caret_upper, rest_of, parse_part, parse_parts, kept_parts, parse_range,
}
use nodus.Semver.Laws.{Foreign, str_version-Lacks, is_space-Foreign, parse-str_version}

-- The answer of `VersionRange.parse(text).matches(value)`.
abbrev pub range_answer : Text → Version → Option Bool
range_answer text value = parse_range text >>= λ cs. range_matches cs value

-- The range text is accepted, no comparison raises, and the answer is `true` exactly under `P`.
abbrev pub Answers : Text → Version → Type 0 → Type 0
Answers text value P = (r : Bool) × (range_answer text value ≡ some r) × ((r ≡ true) ↔ P)

-- The leftmost part of `base` that is not zero is the same in `value`, and so is all before it.
abbrev pub SameLeading : Version → Version → Type 0
SameLeading base value =
    ((0 < base.major) × (value.major ≡ base.major))
    ⊎ ((base.major ≡ 0) × (0 < base.minor) × (value.major ≡ 0) × (value.minor ≡ base.minor))
    ⊎ ((base.major ≡ 0) × (base.minor ≡ 0) × (value ≡ base))

tagged-Lacks :
    (p : ℕ → Bool) (c : ℕ) (v : Version) → Foreign p → p c ≡ false → Lacks p (c ∷ str_version v)
tagged-Lacks p c v f h = (h, str_version-Lacks p v f)

strip_tagged :
    (c : ℕ) (v : Version) → is_space c ≡ false → strip (c ∷ str_version v) ≡ c ∷ str_version v
strip_tagged c v h = strip-Lacks (c ∷ str_version v) (tagged-Lacks is_space c v is_space-Foreign h)

range_between : Version → Version → List Comparator
range_between low high = comparator ">=" low ∷ comparator "<" high ∷ []

range_matches-between :
    (low high v : Version) → range_matches (range_between low high) v ≡ some (le low v && lt v high)
unfolding range_matches matches range_between
range_matches-between low high v = ground arith

parse_range-caret :
    (base : Version)
    → parse_range (b'^' ∷ str_version base) ≡ some (range_between base (caret_upper base))
unfolding parse_range starts_with rest_of range_between is_space
parse_range-caret base = rw (strip_tagged b'^' base refl, parse-str_version base)

parse_range-tilde :
    (base : Version)
    → parse_range (b'~' ∷ str_version base)
      ≡ some (range_between base (version base.major (base.minor + 1) 0))
unfolding parse_range starts_with rest_of range_between is_space
parse_range-tilde base = rw (strip_tagged b'~' base refl, parse-str_version base)

caret_bounds :
    (base v : Version)
    → ((le base v && lt v (caret_upper base)) ≡ true) ↔ ((le base v ≡ true) × SameLeading base v)
unfolding le lt eq caret_upper
caret_bounds base v = ground arith

-- `^base` is accepted and matches exactly the versions from `base` on that agree with it up to its
-- leftmost part that is not zero.
pub caret_range :
    (base v : Version)
    → Answers (b'^' ∷ str_version base) v ((le base v ≡ true) × SameLeading base v)
caret_range base v = (
  le base v && lt v (caret_upper base),
  rw (parse_range-caret base, range_matches-between base (caret_upper base) v),
  caret_bounds base v,
)

tilde_bounds :
    (base v : Version)
    → ((le base v && lt v (version base.major (base.minor + 1) 0)) ≡ true)
      ↔ ((v.major ≡ base.major) × (v.minor ≡ base.minor) × (base.patch ≤ v.patch))
unfolding le lt eq
tilde_bounds base v = ground arith

interval_bounds :
    (low high v : Version)
    → ((le low v && lt v high) ≡ true) ↔ ((lt v low ≡ false) × (lt v high ≡ true))
unfolding le lt eq
interval_bounds low high v = ground arith

-- `~base` is accepted and matches the later patches of `base`, itself included.
pub tilde_range :
    (base v : Version)
    → Answers
        (b'~' ∷ str_version base)
        v
        ((v.major ≡ base.major) × (v.minor ≡ base.minor) × (base.patch ≤ v.patch))
tilde_range base v = (
  le base v && lt v (version base.major (base.minor + 1) 0),
  rw (parse_range-tilde base, range_matches-between base (version base.major (base.minor + 1) 0) v),
  tilde_bounds base v,
)

comma_free :
    (tag : Text) (v : Version)
    → Lacks (λ c. c == b',') tag
    → Lacks (λ c. c == b',') (tag ++ str_version v)
unfolding is_digit
comma_free tag v h =
    All-append _ tag (str_version v) h
      (str_version-Lacks (λ c. c == b',') v ((λ c d. ground arith), refl))

space_free : (tag : Text) (v : Version) → Lacks is_space tag → Lacks is_space (tag ++ str_version v)
space_free tag v h =
    All-append _ tag (str_version v) h (str_version-Lacks is_space v is_space-Foreign)

-- The text `>=low,<high`.
abbrev pub interval_text : Version → Version → Text
interval_text low high = (b'>' ∷ b'=' ∷ str_version low) ++ b',' ∷ (b'<' ∷ str_version high)

strip_interval : (low high : Version) → strip (interval_text low high) ≡ interval_text low high
unfolding is_space
strip_interval low high = strip-Lacks (interval_text low high) (
    All-append _ (b'>' ∷ b'=' ∷ str_version low) (b',' ∷ (b'<' ∷ str_version high))
      (space_free (b'>' ∷ b'=' ∷ []) low (refl, (refl, tt)))
      (refl, space_free (b'<' ∷ []) high (refl, tt)))

split_interval :
    (low high : Version)
    → split b',' (interval_text low high)
      ≡ (b'>' ∷ b'=' ∷ str_version low) ∷ (b'<' ∷ str_version high) ∷ []
split_interval low high =
    split-append b',' (b'>' ∷ b'=' ∷ str_version low) (b'<' ∷ str_version high)
      (comma_free (b'>' ∷ b'=' ∷ []) low (refl, (refl, tt)))
    ∙ ap (λ (ps : List Text). (b'>' ∷ b'=' ∷ str_version low) ∷ ps)
        (split-Lacks b',' (b'<' ∷ str_version high) (comma_free (b'<' ∷ []) high (refl, tt)))

kept_interval :
    (low high : Version)
    → kept_parts ((b'>' ∷ b'=' ∷ str_version low) ∷ (b'<' ∷ str_version high) ∷ [])
      ≡ (b'>' ∷ b'=' ∷ str_version low) ∷ (b'<' ∷ str_version high) ∷ []
unfolding kept_parts is_space
kept_interval low high = rw (
  strip-Lacks (b'>' ∷ b'=' ∷ str_version low)
      (space_free (b'>' ∷ b'=' ∷ []) low (refl, (refl, tt))),
  strip-Lacks (b'<' ∷ str_version high) (space_free (b'<' ∷ []) high (refl, tt)),
)

strip_version : (v : Version) → strip (str_version v) ≡ str_version v
strip_version v = strip-Lacks (str_version v) (str_version-Lacks is_space v is_space-Foreign)

starts_with-Lacks : (c : ℕ) (s : Text) → Lacks (λ d. d == c) s → starts_with (c ∷ []) s ≡ false
unfolding starts_with
starts_with-Lacks c [] h = refl
starts_with-Lacks c (d ∷ s) h = ground (arith, h.0)

no_equals : (v : Version) → starts_with (b'=' ∷ []) (str_version v) ≡ false
unfolding is_digit
no_equals v =
    starts_with-Lacks b'=' (str_version v)
      (str_version-Lacks (λ c. c == b'=') v ((λ c h. ground arith), refl))

lt_part : (v : Version) → parse_part (b'<' ∷ str_version v) ≡ some (comparator "<" v)
unfolding parse_part starts_with
lt_part v = rw (no_equals v, strip_version v, parse-str_version v)

ge_part : (v : Version) → parse_part (b'>' ∷ b'=' ∷ str_version v) ≡ some (comparator ">=" v)
unfolding parse_part starts_with
ge_part v = rw (strip_version v, parse-str_version v)

parse_range-interval :
    (low high : Version) → parse_range (interval_text low high) ≡ some (range_between low high)
unfolding parse_range parse_parts starts_with range_between
parse_range-interval low high = rw (
  strip_interval low high,
  split_interval low high,
  kept_interval low high,
  ge_part low,
  lt_part high,
)

-- The text `>=low,<high` is accepted and matches the versions from `low` on below `high`.
pub interval_range :
    (low high v : Version)
    → Answers (interval_text low high) v ((lt v low ≡ false) × (lt v high ≡ true))
interval_range low high v = (
  le low v && lt v high,
  rw (parse_range-interval low high, range_matches-between low high v),
  interval_bounds low high v,
)
