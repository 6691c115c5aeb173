-- ===== src/TaskGraph.antt =====
-- src/nodus/orchestration/task_graph.py: `_dep_satisfied`, `ready_tasks` and `task_statuses` of a run,
-- over the sets that it keeps. A task is its id here; the values of results, the guards and the
-- spawning of tasks are left out: nothing here reads them.
pub mod Closure
pub mod Explained
pub mod Quiet
pub mod Cascade
pub mod Reports
pub mod Tests
use nodus.Prelude.{
  ℕ, zero, suc, Bool, true, false, not, Option, none, some, List, [], ◌∷◌, ◌==◌, if◌then◌else◌,
  ◌||◌, ◌&&◌, String, length,
}
use nodus.Tasks.{contains, add}
use nodus.Channels.{is_empty}

-- the outcomes of a dependency that a task accepts
pub record OnStates : Type 0 where
  pub completed : Bool
  pub failed : Bool
  pub skipped : Bool

pub data Status : Type 0 where
  running failed : Status
  -- any other word
  other : String → Status

pub record TaskNode : Type 0 where
  pub task_id : ℕ
  pub dependencies : List ℕ
  pub on_states : OnStates

-- the state of a run: the keys of `results`, the sets, and the status of each task
pub record Run : Type 0 where
  pub results : List ℕ
  pub skipped_ids : List ℕ
  pub pending : List ℕ
  pub status : ℕ → Status

abbrev pub is_failed : Status → Bool
is_failed failed = true
is_failed _ = false

-- _dep_satisfied
unfoldable pub dep_satisfied : Run → TaskNode → ℕ → Bool
dep_satisfied r t dep =
    if contains r.results dep
    then t.on_states.completed
    else if is_failed (r.status dep)
    then t.on_states.failed
    else if contains r.skipped_ids dep
    then t.on_states.skipped
    else false

unfoldable pub deps_satisfied : Run → TaskNode → List ℕ → Bool
deps_satisfied r t [] = true
deps_satisfied r t (dep ∷ deps) = dep_satisfied r t dep && deps_satisfied r t deps

abbrev pub is_ready : Run → TaskNode → Bool
is_ready r t = contains r.pending t.task_id && deps_satisfied r t t.dependencies

-- ready_tasks, in the order of the graph
unfoldable pub ready_tasks : Run → List TaskNode → List TaskNode
ready_tasks r [] = []
ready_tasks r (t ∷ ts) = let rest = ready_tasks r ts in if is_ready r t then t ∷ rest else rest

-- {task.task_id for task in tasks if task.status == "failed"}
unfoldable pub failed_ids : Run → List TaskNode → List ℕ
failed_ids r [] = []
failed_ids r (t ∷ ts) =
    let rest = failed_ids r ts in
    if is_failed (r.status t.task_id) then add t.task_id rest else rest

-- the three sets of `task_statuses`
pub record Sets : Type 0 where
  pub blocked : List ℕ
  pub omitted : List ℕ
  pub skipped : List ℕ

pub data Reason : Type 0 where
  blocks skips omits : Reason

module _ (r : Run) (failures : List ℕ) where
  unfoldable pub classified : Sets → ℕ → Bool
  classified s i =
      contains r.results i
      || contains failures i
      || contains s.blocked i
      || contains s.omitted i
      || contains s.skipped i

  -- what one dependency says of the task
  unfoldable pub dep_reason : Sets → TaskNode → ℕ → Option Reason
  dep_reason s t dep =
      if contains s.blocked dep || (contains failures dep && not t.on_states.failed)
      then some blocks
      else if contains s.skipped dep && not t.on_states.skipped
      then some skips
      else if contains s.omitted dep || (contains r.results dep && not t.on_states.completed)
      then some omits
      else none

  -- the loop over the dependencies, up to the first that says something
  abbrev pub first_of : Option Reason → Option Reason → Option Reason
  first_of (some x) rest = some x
  first_of none rest = rest

  unfoldable pub deps_reason : Sets → TaskNode → List ℕ → Option Reason
  deps_reason s t [] = none
  deps_reason s t (dep ∷ deps) = first_of (dep_reason s t dep) (deps_reason s t deps)

  abbrev pub put : Sets → ℕ → Reason → Sets
  put s i blocks = record s { blocked = add i s.blocked }
  put s i skips = record s { skipped = add i s.skipped }
  put s i omits = record s { omitted = add i s.omitted }

  abbrev pub by_reason : Sets → ℕ → Option Reason → Bool → Sets × Bool
  by_reason s i none changed = (s, changed)
  by_reason s i (some x) changed = (put s i x, true)

  -- the body of the loop over the tasks
  unfoldable pub visit : Sets → TaskNode → Bool → Sets × Bool
  visit s t changed =
      if classified s t.task_id
      then (s, changed)
      else by_reason s t.task_id (deps_reason s t t.dependencies) changed

  unfoldable pub pass : List TaskNode → Sets × Bool → Sets × Bool
  pass [] (s, changed) = (s, changed)
  pass (t ∷ ts) (s, changed) = pass ts (visit s t changed)

  -- `while changed`, on fuel
  unfoldable pub close_sets : ℕ → List TaskNode → Sets → Option Sets
  close_sets zero ts s = none
  close_sets (suc n) ts s =
      let (s₁, changed) = pass ts (s, false) in
      let rest = close_sets n ts s₁ in if changed then rest else some s₁

-- what `task_statuses` says of a task
pub data Report : Type 0 where
  completed failure upstream_failed skip omitted abandoned cancelled : Report
  own : Status → Report

-- a task in none of the sets
abbrev pub left_over : Bool → Status → Report
left_over some_failed running = abandoned
left_over some_failed failed = if some_failed then cancelled else own failed
left_over some_failed (other word) = if some_failed then cancelled else own (other word)

unfoldable pub report : Run → List ℕ → Sets → ℕ → Report
report r failures s i =
    if contains r.results i
    then completed
    else if contains failures i
    then failure
    else if contains s.blocked i
    then upstream_failed
    else if contains s.skipped i
    then skip
    else if contains s.omitted i
    then omitted
    else left_over (not (is_empty failures)) (r.status i)

-- the sets at the start: nothing blocked or omitted, and skipped what its guard excluded
abbrev pub first_sets : Run → Sets
first_sets r = record { blocked = []; omitted = []; skipped = r.skipped_ids }

-- the sets that `task_statuses` ends with, on fuel enough for any graph
unfoldable pub final_sets : Run → List TaskNode → Option Sets
final_sets r ts = close_sets r (failed_ids r ts) (suc (length ts)) ts (first_sets r)
