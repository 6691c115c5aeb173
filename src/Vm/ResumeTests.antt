-- ===== src/Vm/ResumeTests.antt =====
-- Coroutines that are resumed and cancelled, on the machine of `Tests`.
use nodus.Prelude.{inl, ◌≡◌, refl, true, false, Option, none, some, List, [], ◌∷◌, ℕ}
use nodus.Tasks.{State}
use nodus.Vm.State.{
  wrong_arity, type_error, Vm, Routine, Handler, catch_at, Error, runtime, thrown, resume_running,
}
use nodus.Vm.Exceptions.{handle_exception, keep, drop_handlers}
use nodus.Vm.Frames.{do_return, do_finally_end}
use nodus.Vm.Step.{Instr, push_const, pop_value, yield_op, return_op, finally_end, halt, execute}
use nodus.Vm.Resume.{
  create, Resumed, Unwound, Outcome, gives, fails, resume, unwind_cancelled_coroutine,
}
use nodus.Vm.Switch.{Back, resume-Back, Cleared, unwind-Cleared}
use nodus.Vm.Delivery.{joined_failure_sticks, unwind_keeps_module}
use nodus.Vm.Tests.{host, machine, in_all, handler, frame}

-- `fn() { yield 3; return 4 }`
abbrev yields : List (Instr ℕ)
yields = push_const 3 ∷ yield_op ∷ push_const 4 ∷ return_op ∷ []

-- the finally block of `cleans`: the code at 1
abbrev cleans : List (Instr ℕ)
cleans = halt ∷ push_const 9 ∷ pop_value ∷ finally_end ∷ halt ∷ []

abbrev routine : State → List Handler → Option (Error ℕ) → Routine ℕ ℕ
routine s handlers pending = record {
  closure = record { addr = 0; params = []; local_slots = []; is_step_body = false; upvalues = [] };
  initial_args = [];
  step_authorized = false;
  last_result = none;
  pending_wait_error = pending;
  state = s;
  saved = record (machine [] [] handlers).context { frames = frame none ∷ [] };
  saved_ip = some 2;
  cancelling = none;
  module_ctx = some 5;
}

abbrev caller : Vm ℕ ℕ
caller = machine (7 ∷ []) [] []

abbrev outcome : Option (Resumed ℕ ℕ) → Option (State × Outcome ℕ)
outcome none = none
outcome (some (m, c, o)) = some (c.state, o)

abbrev again : Option (Resumed ℕ ℕ) → Option (Resumed ℕ ℕ)
again none = none
again (some (m, c, o)) = resume host (in_all yields) 9 m c

first_yields :
    outcome (resume host (in_all yields) 9 caller (routine State.created [] none))
    ≡ some (State.suspended, gives (some 3))
unfolding resume execute
first_yields = refl

then_returns :
    outcome (again (resume host (in_all yields) 9 caller (routine State.created [] none)))
    ≡ some (State.finished, gives (some 4))
unfolding resume execute do_return
then_returns = refl

-- what a run that ended has left
abbrev ended : {A : Type 0} → A → Option A → A
ended x none = x
ended x (some r) = r

abbrev first : Resumed ℕ ℕ
first = (caller, routine State.created [] none, gives none)

resume-Back_example :
    Back caller
      (ended first (resume host (in_all yields) 9 caller (routine State.created [] none))).0
unfolding resume execute
resume-Back_example =
    resume-Back host (in_all yields) 9 caller (routine State.created [] none)
      (ended first (resume host (in_all yields) 9 caller (routine State.created [] none))) refl

abbrev guards : List Handler
guards = handler (catch_at 0) 1 0 1 ∷ []

-- The caller is being cancelled itself.
abbrev cancelled_caller : Vm ℕ ℕ
cancelled_caller = record caller { cancelling = true }

abbrev cancel : Vm ℕ ℕ → List Handler → Option (Unwound ℕ ℕ)
unfolding unwind_cancelled_coroutine
cancel m handlers =
    unwind_cancelled_coroutine host (in_all cleans) 9 m (routine State.suspended handlers none)
      (thrown 1)

abbrev nothing : Unwound ℕ ℕ
nothing = (caller, routine State.suspended [] none, none)

unwind-Cleared_example : Cleared cancelled_caller (ended nothing (cancel cancelled_caller guards))
unfolding unwind_cancelled_coroutine execute handle_exception keep drop_handlers do_finally_end
unwind-Cleared_example =
    unwind-Cleared host (in_all cleans) 9 cancelled_caller (routine State.suspended guards none)
      (thrown 1) (ended nothing (cancel cancelled_caller guards)) refl

joined_failure_sticks_example :
    (n : Vm ℕ ℕ) × (d : Routine ℕ ℕ) × (resume host
        (in_all yields)
        9
        caller
        (routine State.suspended [] (some (thrown 6)))
      ≡ some (n, d, fails (thrown 6)))
    × (resume host (in_all yields) 9 n d ≡ some (n, d, fails (runtime resume_running)))
joined_failure_sticks_example =
    joined_failure_sticks host (in_all yields) 9 caller
      (routine State.suspended [] (some (thrown 6))) (thrown 6) refl refl refl refl

unwind_keeps_module_example :
    (r : Unwound ℕ ℕ) × (unwind_cancelled_coroutine host
        (in_all cleans)
        9
        caller
        (routine State.suspended [] none)
        (thrown 1)
      ≡ some r)
    × (r.0.module_ctx ≡ 5)
    × (r.2 ≡ none)
unwind_keeps_module_example =
    unwind_keeps_module host (in_all cleans) 9 caller (routine State.suspended [] none) (thrown 1) 5
      refl refl

-- The value 50 is a closure with a parameter, and 3 is none.
no_parameters_allowed : create host caller 50 ≡ inl wrong_arity
unfolding create
no_parameters_allowed = refl

only_functions : create host caller 3 ≡ inl type_error
unfolding create
only_functions = refl
