-- ===== src/Cycles/Tests.antt =====
-- Dependency graphs with and without a cycle.
use nodus.Prelude.{◌≡◌, refl, none, some, [], ◌∷◌}
use nodus.Prelude.Dict.{lookup, insert}
use nodus.Cycles.{Graph, rounds, path_from, drop_last, detect_cycle}
use nodus.Cycles.Decides.{Decides, detect_cycle-Decides}

-- `a` and `b` depend on `c`, which depends on `d`; `e` is no step.
abbrev plan : Graph
plan = ("a", "b" ∷ "c" ∷ []) ∷ ("b", "c" ∷ "e" ∷ []) ∷ ("c", "d" ∷ []) ∷ ("d", []) ∷ []

-- `b`, `c` and `d` depend on each other.
abbrev loop : Graph
loop = ("a", "b" ∷ []) ∷ ("b", "e" ∷ "c" ∷ []) ∷ ("c", "d" ∷ []) ∷ ("d", "b" ∷ []) ∷ ("e", []) ∷ []

plan_is_acyclic : detect_cycle plan ≡ some none
unfolding detect_cycle lookup rounds insert
plan_is_acyclic = refl

loop_is_found : detect_cycle loop ≡ some (some ("b" ∷ "c" ∷ "d" ∷ []))
unfolding detect_cycle lookup rounds insert path_from drop_last
loop_is_found = refl

depends_on_itself : detect_cycle (("a", "a" ∷ []) ∷ []) ≡ some (some ("a" ∷ []))
unfolding detect_cycle lookup rounds insert path_from
depends_on_itself = refl

detect_cycle-Decides_example : Decides loop (detect_cycle loop)
detect_cycle-Decides_example = detect_cycle-Decides loop
