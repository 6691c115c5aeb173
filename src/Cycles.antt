-- ===== src/Cycles.antt =====
-- src/nodus/support/graph_cycles.py: `detect_cycle`. Text stands for node names.
pub mod Walks
pub mod Colours
pub mod Budget
pub mod Inspect
pub mod Keeps
pub mod Rounds
pub mod Roots
pub mod Decides
pub mod Tests
use text.Mathlib.Text.{◌==◌}
use nodus.Prelude.{
  ℕ, zero, suc, ◌+◌, Bool, true, false, Option, none, some, List, [], ◌∷◌, ◌++◌, map, String,
  length, get_elem?, if◌then◌else◌,
}
use nodus.Prelude.Dict.{Dict, lookup, insert}

pub data Colour : Type 0 where
  white grey black : Colour

-- the parameter `adjacency`
abbrev pub Graph : Type 0
Graph = Dict (List String)

-- The stack has its top first; a node comes with the index of its next dependency.
pub record Search : Type 0 where
  pub colour : Dict Colour
  pub path : List String
  pub stack : List (String × ℕ)

abbrev pub or_white : Option Colour → Colour
or_white none = white
or_white (some c) = c

-- colour.get(node, WHITE)
abbrev pub colour_of : Dict Colour → String → Colour
colour_of colour node = or_white (lookup node colour)

abbrev pub or_empty : Option (List String) → List String
or_empty none = []
or_empty (some ds) = ds

-- adjacency.get(node, ())
abbrev pub dependencies : Graph → String → List String
dependencies adj node = or_empty (lookup node adj)

abbrev pub is_some : Option (List String) → Bool
is_some none = false
is_some (some ds) = true

abbrev pub is_white : Colour → Bool
is_white white = true
is_white _ = false

-- path[path.index(node):]; Python raises where the node is not on the path
unfoldable pub path_from : String → List String → List String
path_from node [] = []
path_from node (x ∷ xs) = let rest = path_from node xs in if x == node then x ∷ xs else rest

-- path.pop()
unfoldable pub drop_last : List String → List String
drop_last [] = []
drop_last (x ∷ []) = []
drop_last (x ∷ y ∷ rest) = x ∷ drop_last (y ∷ rest)

abbrev pub enter : Search → String → Search
enter s node = record {
  colour = insert node grey s.colour;
  path = s.path ++ node ∷ [];
  stack = (node, 0) ∷ s.stack;
}

-- what one round of the `while` loop does: the stack is empty, the search goes on, or it returns
pub data Visit : Type 0 where
  ended : Visit
  going : Search → Visit
  closes : List String → Visit

abbrev pub look_at : Graph → Search → String → Colour → Visit
look_at adj s dep grey = closes (path_from dep s.path)
look_at adj s dep white = going (if is_some (lookup dep adj) then enter s dep else s)
look_at adj s dep black = going s

abbrev pub with_top : Search → List (String × ℕ) → Search
with_top s stack = record s { stack = stack }

abbrev pub leave : Search → String → List (String × ℕ) → Search
leave s node rest = record {
  colour = insert node black s.colour;
  path = drop_last s.path;
  stack = rest;
}

abbrev pub visit_top : Graph → Search → String → ℕ → List (String × ℕ) → Option String → Visit
visit_top adj s node index rest (some dep) =
    look_at adj (with_top s ((node, suc index) ∷ rest)) dep (colour_of s.colour dep)
visit_top adj s node index rest none = going (leave s node rest)

abbrev pub visit_on : Graph → Search → List (String × ℕ) → Visit
visit_on adj s [] = ended
visit_on adj s ((node, index) ∷ rest) =
    visit_top adj s node index rest (get_elem? (dependencies adj node) index)

unfoldable pub visit : Graph → Search → Visit
visit adj s = visit_on adj s s.stack

pub data Progress : Type 0 where
  explored : Search → Progress
  closed : List String → Progress

abbrev pub proceed : (Search → Option Progress) → Search → Visit → Option Progress
proceed loop s ended = some (explored s)
proceed loop s (going t) = loop t
proceed loop s (closes c) = some (closed c)

-- the `while` loop; `none` where the fuel does not suffice
unfoldable pub search : Graph → ℕ → Search → Option Progress
search adj zero s = none
search adj (suc fuel) s = proceed (search adj fuel) s (visit adj s)

abbrev pub and_then : Option Progress → (Search → Option Progress) → Option Progress
and_then none k = none
and_then (some (closed c)) k = some (closed c)
and_then (some (explored s)) k = k s

-- `for root in adjacency`; the stack is empty between two roots
unfoldable pub from_roots : Graph → ℕ → Graph → Search → Option Progress
from_roots adj fuel [] s = some (explored s)
from_roots adj fuel ((root, ds) ∷ more) s =
    let rest = from_roots adj fuel more in
    if is_white (colour_of s.colour root)
    then and_then (search adj fuel (enter s root)) rest
    else rest s

-- a round for each edge and each node, and one that ends the loop
unfoldable pub rounds : Graph → ℕ
rounds [] = 1
rounds ((node, ds) ∷ rest) = suc (length ds) + rounds rest

abbrev pub all_white : Graph → Dict Colour
all_white adj = map (λ entry. (entry.0, white)) adj

abbrev pub verdict : Option Progress → Option (Option (List String))
verdict none = none
verdict (some (explored s)) = some none
verdict (some (closed c)) = some (some c)

-- detect_cycle: the outer `none` never comes, by `Decides.detect_cycle-decides`
unfoldable pub detect_cycle : Graph → Option (Option (List String))
unfolding from_roots search visit
detect_cycle adj =
    verdict
      (from_roots adj (rounds adj) adj (record { colour = all_white adj; path = []; stack = [] }))
