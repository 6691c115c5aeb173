-- ===== src/Cycles/Inspect.antt =====
-- What holds of the search before each round of its loop, and how a round keeps it.
use mathlib.Core.List.{Memᴰ}
use mathlib.Core.Path.{subst}
use nodus.Prelude.{
  ℕ, suc, ◌<◌, ◌≡◌, sym, ◌⊎◌, inl, inr, true, Option, none, some, List, [], ◌∷◌, ◌++◌, String,
  get_elem?, arith,
}
use nodus.Prelude.Dict.{lookup}
use nodus.Cycles.{Graph, Search, grey, black, colour_of, dependencies, is_some}
use nodus.Cycles.Walks.{Edge, Leads, Leads-concat}

-- the nodes on the stack, the lowest first
abbrev pub names : List (String × ℕ) → List String
names [] = []
names ((n, i) ∷ s) = names s ++ n ∷ []

module _ (adj : Graph) where
  abbrev pub Below : String → List (String × ℕ) → Type 0
  Below n [] = Unit
  Below n ((p, j) ∷ s) = Edge adj p n

  -- Each node of the stack is a dependency of the one below it.
  abbrev pub Trail : List (String × ℕ) → Type 0
  Trail [] = Unit
  Trail ((n, i) ∷ s) = Below n s × Trail s

  -- Every dependency of a finished node was finished before it; the last one stands first.
  abbrev pub Ordered : List String → Type 0
  Ordered [] = Unit
  Ordered (x ∷ xs) =
      ((d : String) → Edge adj x d → is_some (lookup d adj) ≡ true → Memᴰ d xs) × Ordered xs

  -- The dependencies of `n` before index `i` are finished, all but the node above it on the stack.
  abbrev pub Before : List String → Option String → String → ℕ → Type 0
  Before done above n i =
      (d : String) (k : ℕ)
      → k < i
      → get_elem? (dependencies adj n) k ≡ some d
      → is_some (lookup d adj) ≡ true
      → Memᴰ d done ⊎ (above ≡ some d)

  abbrev pub Looked : List String → Option String → List (String × ℕ) → Type 0
  Looked done above [] = Unit
  Looked done above ((n, i) ∷ s) = Before done above n i × Looked done (some n) s

  pub record Inv (s : Search) (done : List String) : Type 0 where
    pub grey_on_path : (d : String) → colour_of s.colour d ≡ grey → Memᴰ d s.path
    pub black_done : (d : String) → colour_of s.colour d ≡ black → Memᴰ d done
    pub path_names : s.path ≡ names s.stack
    pub trail : Trail s.stack
    pub looked : Looked done none s.stack
    pub ordered : Ordered done

  pub Leads-names :
      (n : String) (s : List (String × ℕ)) → Below n s → Trail s → Leads adj n (names s)
  Leads-names n [] b t = tt
  Leads-names n ((p, j) ∷ s) b t = Leads-concat adj p n (names s) (Leads-names p s t.0 t.1) b

  pub Looked-finish :
      (done : List String) (n : String) (above above' : Option String) (s : List (String × ℕ))
      → ((d : String) → above ≡ some d → Memᴰ d (n ∷ done) ⊎ (above' ≡ some d))
      → Looked done above s
      → Looked (n ∷ done) above' s
  Looked-finish done n above above' [] h l = tt
  Looked-finish done n above above' ((p, j) ∷ s) h l = (
    λ d k lt at key. elim (l.0 d k lt at key) [
      | inl finished ↦ inl (Memᴰ.tail finished)
      | inr on_top ↦ h d on_top
    ],
    Looked-finish done n (some p) (some p) s (λ d e. inr e) l.1,
  )

  -- The dependency at index `i` has been dealt with.
  pub Before-next :
      (done : List String) (above : Option String) (n : String) (i : ℕ) (dep : String)
      → get_elem? (dependencies adj n) i ≡ some dep
      → Before done none n i
      → (is_some (lookup dep adj) ≡ true → Memᴰ dep done ⊎ (above ≡ some dep))
      → Before done above n (suc i)
  Before-next done above n i dep at_i before h d k lt at key = elim (compare_index k i lt) [
    | inl earlier ↦ elim (before d k earlier at key) [
      | inl finished ↦ inl finished
      | inr nothing ↦ ground arith
    ]
    | inr same ↦ at_dep (ground arith)
  ]
    where
      at_dep : dep ≡ d → Memᴰ d done ⊎ (above ≡ some d)
      at_dep e =
          subst (λ x. Memᴰ x done ⊎ (above ≡ some x)) e
            (h (subst (λ x. is_some (lookup x adj) ≡ true) (sym e) key))

      compare_index : (k i : ℕ) → k < suc i → (k < i) ⊎ (k ≡ i)
      compare_index k i lt = ground arith
