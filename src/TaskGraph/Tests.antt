-- ===== src/TaskGraph/Tests.antt =====
-- A graph of three steps, and the theorems of the reports at it.
use nodus.Prelude.{ℕ, zero, suc, ◌≡◌, refl, true, false, Option, none, some, List, [], ◌∷◌, arith}
use nodus.Tasks.{contains, add}
use nodus.TaskGraph.{
  OnStates, TaskNode, Run, Sets, running, other, deps_satisfied, dep_satisfied, failed_ids,
  final_sets, close_sets, pass, visit, classified, deps_reason, dep_reason, is_ready, report,
  Report, skip, own, ready_tasks,
}
use nodus.TaskGraph.Explained.{clash}
use nodus.TaskGraph.Reports.{excuses, ready-report, skip_cascade-stalls}

abbrev on_success : OnStates
on_success = record { completed = true; failed = false; skipped = false }

abbrev on_skip : OnStates
on_skip = record { completed = true; failed = false; skipped = true }

-- Step 1 needs step 0, and step 2 needs step 1 and accepts that it is skipped.
abbrev node : ℕ → TaskNode
node zero = record { task_id = 0; dependencies = []; on_states = on_success }
node (suc zero) = record { task_id = 1; dependencies = 0 ∷ []; on_states = on_success }
node (suc (suc zero)) = record { task_id = 2; dependencies = 1 ∷ []; on_states = on_skip }
node (suc (suc (suc i))) = record {
  task_id = suc (suc (suc i));
  dependencies = [];
  on_states = on_success;
}

abbrev steps : List TaskNode
steps = node 1 ∷ node 0 ∷ node 2 ∷ []

-- The guard of step 0 excluded it.
abbrev guarded_run : Run
guarded_run = record {
  results = [];
  skipped_ids = 0 ∷ [];
  pending = 1 ∷ 2 ∷ [];
  status = λ i. other "pending";
}

abbrev report_in : Run → Option Sets → ℕ → Report
report_in r none i = own running
report_in r (some s) i = report r (failed_ids r steps) s i

cascade : report_in guarded_run (final_sets guarded_run steps) 1 ≡ skip
unfolding final_sets close_sets pass visit classified deps_reason dep_reason failed_ids contains add
    report
cascade = refl

left_pending : report_in guarded_run (final_sets guarded_run steps) 2 ≡ own (other "pending")
unfolding final_sets close_sets pass visit classified deps_reason dep_reason failed_ids contains add
    report
left_pending = refl

nothing_ready : ready_tasks guarded_run steps ≡ []
unfolding ready_tasks deps_satisfied dep_satisfied contains
nothing_ready = refl

-- Step 0 returned.
abbrev returned_run : Run
returned_run = record {
  results = 0 ∷ [];
  skipped_ids = [];
  pending = 1 ∷ 2 ∷ [];
  status = λ i. other "pending";
}

returned_run_consistent : (i : ℕ) → clash returned_run i ≡ false
unfolding contains
returned_run_consistent i = ground arith

ready-report_example :
    (s : Sets) × (final_sets returned_run steps ≡ some s)
    × (excuses (report returned_run (failed_ids returned_run steps) s 1) ≡ false)
unfolding deps_satisfied dep_satisfied contains
ready-report_example =
    ready-report returned_run node steps returned_run_consistent (refl, (refl, (refl, tt))) 1 refl
      refl

skip_cascade-stalls_example :
    (s : Sets) × (final_sets guarded_run steps ≡ some s)
    × (report guarded_run (failed_ids guarded_run steps) s 1 ≡ skip)
    × (is_ready guarded_run (node 1) ≡ false)
    × (is_ready guarded_run (node 2) ≡ false)
unfolding contains
skip_cascade-stalls_example =
    skip_cascade-stalls guarded_run node [] (node 0 ∷ node 2 ∷ []) (node 1) 0 [] (node 2) []
      (refl, (refl, (refl, tt))) refl refl refl refl refl refl refl
