-- ===== src/Types/Laws.antt =====
-- `combine_types` and `is_assignable` agree.
use text.Mathlib.Text.{◌==◌}
use text.Mathlib.TextPositions.{eq_refl}
use mathlib.Core.Path.{subst}
use nodus.Prelude.{◌≡◌, refl, sym, Bool, true, false, ◌&&◌, ◌||◌, ◌⊎◌, inl, inr, arith, eq_iff}
use nodus.Types.{NodusType, nodus_type, name, equal, same, is_assignable, combine_types}

-- one is `int` and the other `float`
abbrev numeric : NodusType → NodusType → Bool
numeric a b = same a "int" && same b "float" || same a "float" && same b "int"

assign_equal : (a b : NodusType) → equal a b ≡ true → is_assignable a b ≡ true
unfolding is_assignable
assign_equal a b h = ground (arith, h)

assign_any : (t : NodusType) → is_assignable (nodus_type "any") t ≡ true
unfolding is_assignable
assign_any t = refl

equal_sym : (a b : NodusType) → equal a b ≡ true → equal b a ≡ true
equal_sym a b h =
    subst (λ n. (n == name a) ≡ true) ((eq_iff (name a) (name b)).0 h) (eq_refl (name a))

assign_float :
    (t : NodusType)
    → (same t "int" ≡ true) ⊎ (same t "float" ≡ true)
    → is_assignable (nodus_type "float") t ≡ true
unfolding is_assignable
assign_float t (inl h) = ground (arith, h)
assign_float t (inr h) = assign_equal (nodus_type "float") t (equal_sym t (nodus_type "float") h)

either :
    (a b : NodusType)
    → numeric a b ≡ true
    → ((same a "int" ≡ true) ⊎ (same a "float" ≡ true))
      × ((same b "int" ≡ true) ⊎ (same b "float" ≡ true))
either a b h = ground arith

not_any : (t : NodusType) → (same t "int" ≡ true) ⊎ (same t "float" ≡ true) → same t "any" ≡ false
not_any t (inl h) = subst (λ n. (n == "any") ≡ false) (sym ((eq_iff (name t) "int").0 h)) refl
not_any t (inr h) = subst (λ n. (n == "any") ≡ false) (sym ((eq_iff (name t) "float").0 h)) refl

numeric_comm : (a b : NodusType) → numeric a b ≡ numeric b a
numeric_comm a b = ground arith

-- The combination is the left type where they are equal, `float` for an `int` and a `float`, and
-- else `any`.
abbrev Combined : NodusType → NodusType → Type 0
Combined a b =
    ((equal a b ≡ true) × (combine_types a b ≡ a))
    ⊎ ((equal a b ≡ false) × (numeric a b ≡ true) × (combine_types a b ≡ nodus_type "float"))
    ⊎ ((equal a b ≡ false) × (numeric a b ≡ false) × (combine_types a b ≡ nodus_type "any"))

combine-Combined : (a b : NodusType) → Combined a b
unfolding combine_types
combine-Combined a b =
    by_tests (equal a b) (same a "any" || same b "any") (numeric a b) refl refl refl
  where
    by_tests :
        (e y n : Bool)
        → equal a b ≡ e
        → (same a "any" || same b "any") ≡ y
        → numeric a b ≡ n
        → Combined a b
    by_tests true y n he hy hn = inl (he, rw he refl)
    by_tests false true true he hy hn =
        ground (arith, not_any a (either a b hn).0, not_any b (either a b hn).1)
    by_tests false true false he hy hn = inr (inr (he, hn, rw (he, hy) refl))
    by_tests false false true he hy hn = inr (inl (he, hn, rw (he, hy, hn) refl))
    by_tests false false false he hy hn = inr (inr (he, hn, rw (he, hy, hn) refl))

-- The combined type accepts both of the types that it combines.
pub combine-is_assignable :
    (left right : NodusType)
    → (is_assignable (combine_types left right) left ≡ true)
      × (is_assignable (combine_types left right) right ≡ true)
combine-is_assignable left right = elim (combine-Combined left right) [
  | inl (h, e) ↦ rw e (assign_equal left left (eq_refl (name left)), assign_equal left right h)
  | inr (inl (k, h, e)) ↦
      rw e (assign_float left (either left right h).0, assign_float right (either left right h).1)
  | inr (inr (h, k, e)) ↦ rw e (assign_any left, assign_any right)
]

-- Combining does not depend on the order, up to the equality of types.
pub combine_comm :
    (left right : NodusType) → equal (combine_types left right) (combine_types right left) ≡ true
combine_comm left right = by_cases (combine-Combined left right) (combine-Combined right left)
  where
    by_cases :
        Combined left right
        → Combined right left
        → equal (combine_types left right) (combine_types right left) ≡ true
    by_cases (inl (h, e)) (inl (k, f)) = rw (e, f) h
    by_cases (inl (h, e)) (inr x) = ground (arith, equal_sym left right h)
    by_cases (inr x) (inl (k, f)) = ground (arith, equal_sym right left k)
    by_cases (inr (inl (h, m, e))) (inr (inl (k, n, f))) = rw (e, f) refl
    by_cases (inr (inl (h, m, e))) (inr (inr (k, n, f))) = ground (arith, numeric_comm left right)
    by_cases (inr (inr (h, m, e))) (inr (inl (k, n, f))) = ground (arith, numeric_comm left right)
    by_cases (inr (inr (h, m, e))) (inr (inr (k, n, f))) = rw (e, f) refl
