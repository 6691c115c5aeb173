-- ===== src/Cycles/Walks.antt =====
-- Cycles, walks along the search's stack, and graphs in which every walk ends.
use mathlib.Core.List.{Memᴰ}
use mathlib.Core.List.Memᴰ
use mathlib.Core.WellFounded.{Acc}
use mathlib.Core.Path.{subst}
use text.Mathlib.Text.{◌==◌}
use text.Mathlib.TextEquality.{eq_iff}
use nodus.Prelude.{
  ℕ, ◌≡◌, refl, sym, Bool, true, false, inl, inr, some, List, [], ◌∷◌, ◌++◌, String, get_elem?,
  arith, if◌then◌else◌,
}
use nodus.Cycles.{Graph, dependencies, path_from}

-- `d` is a dependency of `node`.
abbrev pub Edge : Graph → String → String → Type 0
Edge adj node d = (k : ℕ) × (get_elem? (dependencies adj node) k ≡ some d)

abbrev head_or : String → List String → String
head_or last [] = last
head_or last (x ∷ xs) = x

-- Each node depends on the next one, and the last one on `last`.
abbrev pub Leads : Graph → String → List String → Type 0
Leads adj last [] = Unit
Leads adj last (x ∷ xs) = Edge adj x (head_or last xs) × Leads adj last xs

abbrev pub IsCycle : Graph → List String → Type 0
IsCycle adj [] = ⊥
IsCycle adj (x ∷ xs) = Leads adj x (x ∷ xs)

module _ (adj : Graph) where
  head_or-concat : (a b : String) (xs : List String) → head_or b (xs ++ a ∷ []) ≡ head_or a xs
  head_or-concat a b [] = refl
  head_or-concat a b (x ∷ xs) = refl

  pub Leads-concat :
      (a b : String) (xs : List String) → Leads adj a xs → Edge adj a b → Leads adj b (xs ++ a ∷ [])
  Leads-concat a b [] l e = (e, tt)
  Leads-concat a b (x ∷ xs) l e =
      (subst (Edge adj x) (sym (head_or-concat a b xs)) l.0, Leads-concat a b xs l.1 e)

  pub Leads-path_from :
      (d : String) (xs : List String) → Memᴰ d xs → Leads adj d xs → IsCycle adj (path_from d xs)
  unfolding path_from
  Leads-path_from d [] m l = absurd (Memᴰ.not-nil m)
  Leads-path_from d (x ∷ xs) m l = by_test (x == d) refl (λ m'. Leads-path_from d xs m' l.1)
    where
      by_test :
          (b : Bool)
          → (x == d) ≡ b
          → (Memᴰ d xs → IsCycle adj (path_from d xs))
          → IsCycle adj (if b then x ∷ xs else path_from d xs)
      by_test true e rest = subst (λ y. Leads adj y (x ∷ xs)) (sym ((eq_iff x d).0 e)) l
      by_test false e rest = elim (Memᴰ.cases_cons m) [
        | inl same ↦ ground (arith, eq_iff x d)
        | inr below ↦ rest below
      ]

  -- Every walk of dependencies from the node ends.
  abbrev pub Ends : String → Type 0
  Ends = Acc (λ d node. Edge adj node d)

  pub Ends-acyclic : (x : String) (xs : List String) → Ends x → IsCycle adj (x ∷ xs) → ⊥
  Ends-acyclic x [] (Acc.intro _ below) c = Ends-acyclic x [] (below x c.0) c
  Ends-acyclic x (y ∷ ys) (Acc.intro _ below) c =
      Ends-acyclic y (ys ++ x ∷ []) (below y c.0) (Leads-concat x y (y ∷ ys) c.1 c.0)
