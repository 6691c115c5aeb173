-- ===== src/TaskGraph/Reports.antt =====
-- That a task which could run is not reported as one that could not.
use nodus.Prelude.{
  ℕ, ◌≡◌, refl, Bool, true, false, not, some, List, [], ◌∷◌, ◌++◌, arith, All, if◌then◌else◌,
}
use nodus.Tasks.{contains}
use nodus.Channels.{is_empty}
use nodus.TaskGraph.{
  first_sets, is_failed, Run, TaskNode, Sets, dep_satisfied, deps_satisfied, is_ready, failed_ids,
  final_sets, Report, report, upstream_failed, skip, omitted, completed, failure, left_over, Status,
  running, failed, other,
}
use mathlib.Core.Path.{subst}
use nodus.TaskGraph.Closure.{final_sets-ends, close-finds}
use nodus.TaskGraph.Quiet.{Stuck, AllStuck, close-AllStuck}
use nodus.TaskGraph.Cascade.{Skips, visit-Skips, Stuck-skipped}
use nodus.TaskGraph.Explained.{
  failed_ids-failed, Late, Explained, clash, unsettled, final-Explained,
}

-- The report says that the task could not run: something above it broke, was skipped, or ended in a
-- way that it does not accept.
abbrev pub excuses : Report → Bool
excuses upstream_failed = true
excuses skip = true
excuses omitted = true
excuses _ = false

left_over_unexcused : (b : Bool) (st : Status) → excuses (left_over b st) ≡ false
left_over_unexcused b running = refl
left_over_unexcused true failed = refl
left_over_unexcused false failed = refl
left_over_unexcused true (other word) = refl
left_over_unexcused false (other word) = refl

report_unexcused :
    (r : Run) (failures : List ℕ) (s : Sets) (i : ℕ)
    → (contains s.blocked i ≡ false)
      × (contains s.omitted i ≡ false)
      × (contains s.skipped i ≡ false)
    → excuses (report r failures s i) ≡ false
unfolding report
report_unexcused r failures s i (b, o, k) =
    rw (b, o, k) (by_tests (contains r.results i) (contains failures i))
  where
    by_tests :
        (p q : Bool)
        → excuses (
            if p
            then completed
            else if q
            then failure
            else left_over (not (is_empty failures)) (r.status i))
          ≡ false
    by_tests true q = refl
    by_tests false true = refl
    by_tests false false = left_over_unexcused (not (is_empty failures)) (r.status i)

module _ (r : Run) (node : ℕ → TaskNode) (s : Sets) (ex : Explained r node s) (i : ℕ) where
  ready-unexcused :
      deps_satisfied r (node i) (node i).dependencies ≡ true
      → contains r.skipped_ids i ≡ false
      → (contains s.blocked i ≡ false)
        × (contains s.omitted i ≡ false)
        × (contains s.skipped i ≡ false)
  unfolding Late
  ready-unexcused ok unskipped = (
    ground (arith, ex.at_blocked i),
    ground (arith, ex.at_omitted i),
    ground (arith, ex.at_skipped i),
  )

-- The report of a run always comes to an end, and of a task that was not skipped by its own guard and
-- whose dependencies have all ended as it accepts it never says that something above it failed, was
-- skipped or ended otherwise. Ids are those of one task each, and no task has two outcomes.
pub ready-report :
    (r : Run) (node : ℕ → TaskNode) (ts : List TaskNode)
    → ((i : ℕ) → clash r i ≡ false)
    → All (λ t. node t.task_id ≡ t) ts
    → (i : ℕ) → deps_satisfied r (node i) (node i).dependencies ≡ true
    → contains r.skipped_ids i ≡ false
    → (s : Sets) × (final_sets r ts ≡ some s) × (excuses (report r (failed_ids r ts) s i) ≡ false)
ready-report r node ts consistent named i ok unskipped =
    let (s, e) = final_sets-ends r ts in
    let ex = final-Explained r node ts consistent named s e in
    (s, e, report_unexcused r (failed_ids r ts) s i (ready-unexcused r node s ex i ok unskipped))

not_in : (i : ℕ) → contains [] i ≡ false
unfolding contains
not_in i = refl

module _ (r : Run) (node : ℕ → TaskNode) (front back : List TaskNode) (u : TaskNode) (a : ℕ)
    (deps : List ℕ) where
  abbrev cascade_tasks : List TaskNode
  cascade_tasks = front ++ u ∷ back

  at_u : (P : TaskNode → Type 0) (ts : List TaskNode) → All P (ts ++ u ∷ back) → P u
  at_u P [] h = h.0
  at_u P (t ∷ ts) h = at_u P ts h.1

  unlisted :
      (i : ℕ) → is_failed (r.status i) ≡ false → contains (failed_ids r cascade_tasks) i ≡ false
  unlisted i ok = ground (arith, failed_ids-failed r cascade_tasks i)

  -- In any state of a run in which the guard of the task `a` excluded it, and `a` has no result and
  -- has not failed, a task `u` that needs `a` first, does not accept a skipped dependency and has
  -- no outcome of its own is reported as skipped, but a task `t` whose first dependency is `u` is
  -- not ready, also if it accepts a skipped dependency, and neither is `u` itself. Ids are those of
  -- one task each.
  pub skip_cascade-stalls :
      (t : TaskNode) (more : List ℕ)
      → All (λ v. node v.task_id ≡ v) cascade_tasks
      → contains r.skipped_ids a ≡ true
      → contains r.results a ≡ false
      → is_failed (r.status a) ≡ false
      → u.dependencies ≡ a ∷ deps
      → u.on_states.skipped ≡ false
      → unsettled r u.task_id ≡ true
      → t.dependencies ≡ u.task_id ∷ more
      → (s : Sets) × (final_sets r cascade_tasks ≡ some s)
        × (report r (failed_ids r cascade_tasks) s u.task_id ≡ skip)
        × (is_ready r u ≡ false)
        × (is_ready r t ≡ false)
  unfolding final_sets report deps_satisfied dep_satisfied
  skip_cascade-stalls t more named excluded no_result ok needs refuses free below =
      let failures = failed_ids r cascade_tasks in
      let (s, e) = final_sets-ends r cascade_tasks in
      let listed = unlisted a ok in
      let mine = unlisted u.task_id (ground (arith, free)) in
      let k : Skips r failures a u deps excluded no_result listed needs refuses s =
        close-finds r failures (Skips r failures a u deps excluded no_result listed needs refuses)
          (λ v. node v.task_id ≡ v)
          (λ s₁ v c.
            visit-Skips r failures a u deps excluded no_result listed needs refuses node
              (at_u _ front named) s₁ v c)
          _ cascade_tasks (first_sets r) s named
          (record {
            skipped_a = excluded;
            blocked_a = not_in a;
            omitted_a = not_in a;
            blocked_u = not_in u.task_id;
            omitted_u = not_in u.task_id;
          })
          e in
      let stuck : All (Stuck r failures s) cascade_tasks =
        subst (AllStuck r failures cascade_tasks) e
          (close-AllStuck r failures _ cascade_tasks (first_sets r)) in
      let skipped =
        Stuck-skipped r failures a u deps excluded no_result listed needs refuses s k free mine
          (at_u _ front stuck) in
      (s, e, ground (arith, k.blocked_u), ground (arith, needs), ground (arith, below))
