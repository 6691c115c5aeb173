-- ===== src/Cycles/Budget.antt =====
-- How many rounds the search takes at most.
use text.Mathlib.TextEquality.{eq_iff}
use nodus.Prelude.{
  ℕ, suc, ◌+◌, ◌-◌, ◌≤◌, ◌<◌, ◌≡◌, refl, ap, false, Option, none, some, List, [], ◌∷◌, String,
  length, get_elem?, get_elem?-lt, arith, if◌then◌else◌,
}
use nodus.Prelude.Dict.{Dict, lookup, insert}
use nodus.Cycles.{
  Graph, Colour, Search, Visit, white, grey, black, ended, going, closes, colour_of, dependencies,
  is_some, is_white, or_empty, enter, look_at, visit_top, visit_on, visit, with_top, rounds,
}
use nodus.Cycles.Colours.{colour_of-insert}

-- the rounds that the white nodes cost
unfoldable pub white_weight : Dict Colour → Graph → ℕ
white_weight colour [] = 0
white_weight colour ((node, ds) ∷ rest) =
    (if is_white (colour_of colour node) then suc (length ds) else 0) + white_weight colour rest

white_weight-rounds : (colour : Dict Colour) (g : Graph) → suc (white_weight colour g) ≤ rounds g
unfolding white_weight rounds
white_weight-rounds colour [] = omega arith
white_weight-rounds colour ((node, ds) ∷ rest) = ground (arith, white_weight-rounds colour rest)

-- Colouring a node costs nothing.
white_weight-insert :
    (n : String) (c : Colour) (colour : Dict Colour) (g : Graph)
    → is_white c ≡ false
    → white_weight (insert n c colour) g ≤ white_weight colour g
unfolding white_weight
white_weight-insert n c colour [] h = omega arith
white_weight-insert n c colour ((node, ds) ∷ rest) h =
    ground (arith, white_weight-insert n c colour rest h, colour_of-insert n node c colour)

-- Colouring a white node saves its rounds.
white_weight-enter :
    (n : String) (ds : List String) (colour : Dict Colour) (g : Graph)
    → colour_of colour n ≡ white
    → lookup n g ≡ some ds
    → white_weight (insert n grey colour) g + suc (length ds) ≤ white_weight colour g
unfolding white_weight lookup
white_weight-enter n ds colour [] w h = ground arith
white_weight-enter n ds colour ((node, es) ∷ rest) w h = ground (
  arith,
  white_weight-enter n ds colour rest w,
  white_weight-insert n grey colour rest refl,
  colour_of-insert n node grey colour,
  eq_iff node n,
  eq_iff n node,
)

module _ (adj : Graph) where
  -- the rounds that the nodes of the stack still cost
  unfoldable pub stack_weight : List (String × ℕ) → ℕ
  stack_weight [] = 0
  stack_weight ((node, i) ∷ rest) = suc (length (dependencies adj node) - i) + stack_weight rest

  abbrev pub weight : Search → ℕ
  weight s = white_weight s.colour adj + stack_weight s.stack

  -- A round makes the search cheaper.
  abbrev pub Cheaper : ℕ → Visit → Type 0
  Cheaper n ended = Unit
  Cheaper n (going t) = weight t < n
  Cheaper n (closes c) = Unit

  look_at-Cheaper :
      (s : Search) (node dep : String) (i : ℕ) (rest : List (String × ℕ)) (c : Colour)
      → get_elem? (dependencies adj node) i ≡ some dep
      → colour_of s.colour dep ≡ c
      → Cheaper
          (white_weight s.colour adj + stack_weight ((node, i) ∷ rest))
          (look_at adj (with_top s ((node, suc i) ∷ rest)) dep c)
  unfolding stack_weight
  look_at-Cheaper s node dep i rest grey at_i h = tt
  look_at-Cheaper s node dep i rest black at_i h =
      omega (arith, get_elem?-lt (dependencies adj node) i at_i)
  look_at-Cheaper s node dep i rest white at_i h = by_key (lookup dep adj) refl
    where
      next : Search
      next = with_top s ((node, suc i) ∷ rest)

      by_key :
          (o : Option (List String))
          → lookup dep adj ≡ o
          → weight (if is_some o then enter next dep else next)
            < white_weight s.colour adj + stack_weight ((node, i) ∷ rest)
      by_key none e = omega (arith, get_elem?-lt (dependencies adj node) i at_i)
      by_key (some ds) e = omega (
        arith,
        get_elem?-lt (dependencies adj node) i at_i,
        white_weight-enter dep ds s.colour adj h e,
        ap (λ o. length (or_empty o)) e,
      )

  visit_on-Cheaper :
      (s : Search) (stack : List (String × ℕ))
      → Cheaper (white_weight s.colour adj + stack_weight stack) (visit_on adj s stack)
  unfolding stack_weight
  visit_on-Cheaper s [] = tt
  visit_on-Cheaper s ((node, i) ∷ rest) = by_elem (get_elem? (dependencies adj node) i) refl
    where
      by_elem :
          (o : Option String)
          → get_elem? (dependencies adj node) i ≡ o
          → Cheaper
              (white_weight s.colour adj + stack_weight ((node, i) ∷ rest))
              (visit_top adj s node i rest o)
      by_elem (some dep) e = look_at-Cheaper s node dep i rest (colour_of s.colour dep) e refl
      by_elem none e = omega (arith, white_weight-insert node black s.colour adj refl)

  pub visit-Cheaper : (s : Search) → Cheaper (weight s) (visit adj s)
  unfolding visit
  visit-Cheaper s = visit_on-Cheaper s s.stack

  -- The first search from a root has enough fuel.
  pub weight-root :
      (s : Search) (root : String) (ds : List String)
      → s.stack ≡ []
      → colour_of s.colour root ≡ white
      → lookup root adj ≡ some ds
      → weight (enter s root) < rounds adj
  unfolding stack_weight
  weight-root s root ds empty w key = omega (
    arith,
    white_weight-enter root ds s.colour adj w key,
    white_weight-rounds s.colour adj,
    ap (λ o. length (or_empty o)) key,
    ap stack_weight empty,
  )
