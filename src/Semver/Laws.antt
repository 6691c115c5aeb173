-- ===== src/Semver/Laws.antt =====
-- The text of a version is read back as that version, with spaces round it and in a range.
use nodus.Prelude.{
  ℕ, ◌≡◌, ◌≢◌, refl, Bool, true, false, some, List, [], ◌∷◌, ◌++◌, All-append, arith, ◌==◌,
}
use nodus.Prelude.Monad.{◌>>=◌}
use nodus.Text.{Text, is_digit, is_space, int_from, split, str}
use nodus.Text.Laws.{Lacks, strip-Lacks, split-Lacks, split-append}
use nodus.Text.Decimal.{Digits, all_digits_of, str-Digits, int_from-str, str-ne-nil}
use nodus.Semver.{Version, values, parse, str_version}

-- a character class that digits and dots avoid
abbrev pub Foreign : (ℕ → Bool) → Type 0
Foreign p = ((c : ℕ) → is_digit c ≡ true → p c ≡ false) × (p b'.' ≡ false)

Lacks-of_Digits :
    (p : ℕ → Bool) (s : Text) → ((c : ℕ) → is_digit c ≡ true → p c ≡ false) → Digits s → Lacks p s
Lacks-of_Digits p [] f h = tt
Lacks-of_Digits p (c ∷ s) f h = (f c h.0, Lacks-of_Digits p s f h.1)

pub str_version-Lacks : (p : ℕ → Bool) (v : Version) → Foreign p → Lacks p (str_version v)
unfolding str_version
str_version-Lacks p v (f, dot) =
    let part = λ (n : ℕ). Lacks-of_Digits p (str n) f (str-Digits n) in
    All-append _ (str v.major) _ (part v.major)
      (dot, All-append _ (str v.minor) _ (part v.minor) (dot, part v.patch))

pub is_space-Foreign : Foreign is_space
unfolding is_space is_digit
is_space-Foreign = (λ c h. ground arith, refl)

dot_free : (n : ℕ) → Lacks (λ c. c == b'.') (str n)
unfolding is_digit
dot_free n = Lacks-of_Digits (λ c. c == b'.') (str n) (λ c h. ground arith) (str-Digits n)

values-cons :
    (s : Text) (ps : List Text)
    → s ≢ []
    → Digits s
    → values (s ∷ ps) ≡ (values ps >>= λ vs. some (int_from 0 s ∷ vs))
unfolding values
values-cons [] ps ne h = absurd (ne refl)
values-cons (c ∷ s) ps ne h = rw (all_digits_of (c ∷ s) h)

values-str : (n : ℕ) (ps : List Text) → values (str n ∷ ps) ≡ (values ps >>= λ vs. some (n ∷ vs))
values-str n ps = rw (values-cons (str n) ps (str-ne-nil n) (str-Digits n), int_from-str n)

split-str_version :
    (v : Version) → split b'.' (str_version v) ≡ str v.major ∷ str v.minor ∷ str v.patch ∷ []
unfolding str_version
split-str_version v = rw (
  split-append b'.' (str v.major) (str v.minor ++ b'.' ∷ str v.patch) (dot_free v.major),
  split-append b'.' (str v.minor) (str v.patch) (dot_free v.minor),
  split-Lacks b'.' (str v.patch) (dot_free v.patch),
)

-- A version is read back from the text that `str` writes for it.
pub parse-str_version : (v : Version) → parse (str_version v) ≡ some v
unfolding parse
parse-str_version v = rw (
  strip-Lacks (str_version v) (str_version-Lacks is_space v is_space-Foreign),
  split-str_version v,
  values-str v.major (str v.minor ∷ str v.patch ∷ []),
  values-str v.minor (str v.patch ∷ []),
  values-str v.patch [],
)
