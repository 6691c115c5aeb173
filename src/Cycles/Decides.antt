-- ===== src/Cycles/Decides.antt =====
-- `detect_cycle` answers, and its answer is right.
use mathlib.Core.List.{Memᴰ}
use mathlib.Core.List.Memᴰ
use mathlib.Core.Path.{subst}
use mathlib.Core.WellFounded.{Acc}
use nodus.Prelude.{
  ◌≡◌, refl, sym, inl, inr, Bool, true, false, Option, none, some, List, [], ◌∷◌, String, arith,
  if◌then◌else◌, get_elem?,
}
use text.Mathlib.Text.{◌==◌}
use nodus.Prelude.Dict.{lookup}
use nodus.Cycles.{
  Graph, Search, Progress, white, explored, closed, colour_of, or_white, or_empty, is_some,
  all_white, verdict, detect_cycle,
}
use nodus.Cycles.Walks.{Edge, IsCycle, Ends, Ends-acyclic}
use nodus.Cycles.Inspect.{Inv, Ordered}
use nodus.Cycles.Roots.{HasKey, Rooted, from_roots-Rooted}

module _ (adj : Graph) where
  Edge-HasKey : (x d : String) → Edge adj x d → HasKey x adj
  Edge-HasKey x d (k, e) = by_option (lookup x adj) e
    where
      by_option : (o : Option (List String)) → get_elem? (or_empty o) k ≡ some d → is_some o ≡ true
      by_option none e = ground arith
      by_option (some ds) e = refl

  HasKey-Ends : (x : String) → is_some (lookup x adj) ≡ false → Ends adj x
  HasKey-Ends x none_there = Acc.intro x (λ d edge. absurd (ground (arith, Edge-HasKey x d edge)))

  Ordered-Ends : (done : List String) → Ordered adj done → (x : String) → Memᴰ x done → Ends adj x
  Ordered-Ends [] o x m = absurd (Memᴰ.not-nil m)
  Ordered-Ends (y ∷ ys) o x m = elim (Memᴰ.cases_cons m) [
    | inl same ↦ subst (Ends adj) (sym same) (
        Acc.intro y (λ d edge. by_key d edge (is_some (lookup d adj)) refl (Ordered-Ends ys o.1 d)))
    | inr below ↦ Ordered-Ends ys o.1 x below
  ]
    where
      by_key :
          (d : String)
          → Edge adj y d
          → (b : Bool) → is_some (lookup d adj) ≡ b
          → (Memᴰ d ys → Ends adj d)
          → Ends adj d
      by_key d edge true key ends = ends (o.0 d edge key)
      by_key d edge false key ends = HasKey-Ends d key

  colour_of-all_white : (g : Graph) (d : String) → colour_of (all_white g) d ≡ white
  unfolding lookup
  colour_of-all_white [] d = refl
  colour_of-all_white ((node, ds) ∷ rest) d = by_test (node == d) (colour_of-all_white rest d)
    where
      by_test :
          (b : Bool)
          → colour_of (all_white rest) d ≡ white
          → or_white (if b then some white else lookup d (all_white rest)) ≡ white
      by_test true ih = refl
      by_test false ih = ih

  abbrev start : Search
  start = record { colour = all_white adj; path = []; stack = [] }

  start-Inv : Inv adj start []
  start-Inv = record {
    grey_on_path = λ d h. ground (arith, colour_of-all_white adj d);
    black_done = λ d h. ground (arith, colour_of-all_white adj d);
    path_names = refl;
    trail = tt;
    looked = tt;
    ordered = tt;
  }

  -- An answer that is right: a cycle, or that there is none.
  abbrev pub Decides : Option (Option (List String)) → Type 0
  Decides none = ⊥
  Decides (some none) = (c : List String) → IsCycle adj c → ⊥
  Decides (some (some c)) = IsCycle adj c

  no_cycle :
      (done : List String)
      → Ordered adj done
      → ((r : String) → HasKey r adj → Memᴰ r done)
      → (c : List String) → IsCycle adj c
      → ⊥
  no_cycle done o all [] cycle = cycle
  no_cycle done o all (x ∷ xs) cycle =
      Ends-acyclic adj x xs (Ordered-Ends done o x (all x (Edge-HasKey x _ cycle.0))) cycle

  verdict-Decides : (o : Option Progress) → Rooted adj [] adj o → Decides (verdict o)
  verdict-Decides none w = w
  verdict-Decides (some (closed c)) w = w
  verdict-Decides (some (explored t)) (done, inv, empty, later, all) = no_cycle done inv.ordered all

  -- On every dependency graph `detect_cycle` gives an answer: a list that is a cycle (each node
  -- depends on the next one, and the last one on the first), or none, and then no list is a cycle.
  pub detect_cycle-Decides : Decides (detect_cycle adj)
  unfolding detect_cycle
  detect_cycle-Decides =
      verdict-Decides _ (from_roots-Rooted adj adj start [] (λ r h. h) start-Inv refl)
