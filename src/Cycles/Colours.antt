-- ===== src/Cycles/Colours.antt =====
-- The colours of the nodes, the path and its last node.
use mathlib.Core.List.{Memᴰ}
use mathlib.Core.List.Memᴰ
use text.Mathlib.Text.{◌==◌}
use text.Mathlib.TextEquality.{eq_iff}
use nodus.Prelude.{
  ℕ, zero, suc, ◌<◌, ◌≡◌, refl, sym, ap, ◌∙◌, inl, inr, Bool, true, false, none, some, List, [],
  ◌∷◌, ◌++◌, String, get_elem?, arith, if◌then◌else◌,
}
use nodus.Prelude.Dict.{Dict, lookup, lookup-insert, insert}
use nodus.Cycles.{Colour, colour_of, or_white, drop_last}

pub colour_of-insert :
    (n d : String) (c : Colour) (colour : Dict Colour)
    → colour_of (insert n c colour) d ≡ (if n == d then c else colour_of colour d)
colour_of-insert n d c colour = ap or_white (lookup-insert n d c colour) ∙ by_test (n == d)
  where
    by_test :
        (b : Bool)
        → or_white (if b then some c else lookup d colour) ≡ (if b then c else colour_of colour d)
    by_test true = refl
    by_test false = refl

-- A node of another colour had that colour before, and is another node.
pub colour_of-other :
    (n d : String) (c other : Colour) (colour : Dict Colour)
    → (c ≡ other → ⊥)
    → colour_of (insert n c colour) d ≡ other
    → ((n == d) ≡ false) × (colour_of colour d ≡ other)
colour_of-other n d c other colour differs h =
    by_test (n == d) refl (sym (colour_of-insert n d c colour) ∙ h)
  where
    by_test :
        (b : Bool)
        → (n == d) ≡ b
        → (if b then c else colour_of colour d) ≡ other
        → ((n == d) ≡ false) × (colour_of colour d ≡ other)
    by_test true e h = absurd (differs h)
    by_test false e h = (e, h)

pub drop_last-concat : (xs : List String) (x : String) → drop_last (xs ++ x ∷ []) ≡ xs
unfolding drop_last
drop_last-concat [] x = refl
drop_last-concat (y ∷ []) x = refl
drop_last-concat (y ∷ z ∷ ys) x = ap (λ l. y ∷ l) (drop_last-concat (z ∷ ys) x)

pub mem-before :
    (d n : String) (xs : List String) → Memᴰ d (xs ++ n ∷ []) → (n == d) ≡ false → Memᴰ d xs
mem-before d n xs m h = elim (Memᴰ.append_cases xs m) [
  | inl before ↦ before
  | inr last ↦ absurd (by_eq (Memᴰ.eq_of_singleton last))
]
  where
    by_eq : d ≡ n → ⊥
    by_eq e = ground (arith, eq_iff n d)

pub get_elem?-before :
    (xs : List String) (k i : ℕ) (d : String)
    → get_elem? xs k ≡ some d
    → get_elem? xs i ≡ none
    → k < i
get_elem?-before [] k i d at nothing = ground arith
get_elem?-before (x ∷ xs) k zero d at nothing = ground arith
get_elem?-before (x ∷ xs) zero (suc i) d at nothing = omega arith
get_elem?-before (x ∷ xs) (suc k) (suc i) d at nothing =
    omega (arith, get_elem?-before xs k i d at nothing)
