-- ===== src/Text/Decimal.antt =====
-- `int` reads back what `str` writes.
use nodus.Prelude.{
  ℕ, zero, suc, ◌+◌, ◌-◌, ◌*◌, ◌/◌, ◌%◌, ◌<◌, ◌≡◌, ◌≢◌, refl, true, inl, inr, [], ◌∷◌, ◌++◌, All,
  All-append, arith, ltb, Bool-cases,
}
use nodus.Text.{Text, is_digit, all_digits, int_from, digits, str}

abbrev pub Digits : Text → Type 0
Digits = All (λ c. is_digit c ≡ true)

pub all_digits_of : (s : Text) → Digits s → all_digits s ≡ true
unfolding all_digits
all_digits_of [] h = refl
all_digits_of (c ∷ s) h = rw (h.0, all_digits_of s h.1)

int_from-append :
    (acc : ℕ) (s : Text) (c : ℕ) → int_from acc (s ++ c ∷ []) ≡ int_from acc s * 10 + (c - 48)
unfolding int_from
int_from-append acc [] c = refl
int_from-append acc (d ∷ s) c = int_from-append (acc * 10 + (d - 48)) s c

digit_of_small : (d : ℕ) → d < 10 → is_digit (48 + d) ≡ true
unfolding is_digit
digit_of_small d h = ground arith

digits-Digits : (f n : ℕ) → Digits (digits f n)
unfolding digits
digits-Digits zero n = tt
digits-Digits (suc f) n = elim (Bool-cases (ltb n 10)) [
  | inl small ↦ rw small (digit_of_small n (ground arith), tt)
  | inr more ↦ rw more (
      All-append _ (digits f (n / 10)) _ (digits-Digits f (n / 10))
        (digit_of_small (n % 10) (omega arith), tt))
]

int_from-digits : (f n : ℕ) → n < f → int_from 0 (digits f n) ≡ n
unfolding digits int_from
int_from-digits zero n h = elim h [ ]
int_from-digits (suc f) n h = elim (Bool-cases (ltb n 10)) [
  | inl small ↦ rw small (omega arith)
  | inr more ↦
      rw (more, int_from-append 0 (digits f (n / 10)) (48 + n % 10))
        (ground (arith, int_from-digits f (n / 10)))
]

pub str-Digits : (n : ℕ) → Digits (str n)
unfolding str
str-Digits n = digits-Digits (suc n) n

pub int_from-str : (n : ℕ) → int_from 0 (str n) ≡ n
unfolding str
int_from-str n = int_from-digits (suc n) n (omega arith)

concat-ne-nil : (s : Text) (c : ℕ) → s ++ c ∷ [] ≢ []
concat-ne-nil [] c h = cc
concat-ne-nil (d ∷ s) c h = cc

pub str-ne-nil : (n : ℕ) → str n ≢ []
unfolding str digits
str-ne-nil n = elim (Bool-cases (ltb n 10)) [
  | inl small ↦ rw small (λ h. cc)
  | inr more ↦ rw more (concat-ne-nil (digits n (n / 10)) (48 + n % 10))
]
