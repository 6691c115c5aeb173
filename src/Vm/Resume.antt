-- ===== src/Vm/Resume.antt =====
-- src/nodus/builtins/coroutine.py: `coroutine` and `resume`, and `unwind_cancelled_coroutine` of vm.py. Both run a
-- coroutine on the machine of their caller. Python's objects of a coroutine are values here: what a
-- run makes of one stands in `current_coroutine` when the run ends.
use nodus.Prelude.{
  ◌⊎◌, inl, inr, ◌==◌, length, ℕ, Bool, true, false, not, ◌&&◌, Option, none, some, List, [], ◌∷◌,
  if◌then◌else◌,
}
use nodus.Tasks.{State}
use nodus.Vm.State.{
  Fault, type_error, wrong_arity, Vm, Routine, Frame, Closure, Error, runtime, step_entry,
  call_stack_overflow, resume_finished, resume_running, at_ip, restore_module,
  load_coroutine_context, save_execution_context, restore_execution_context,
}
use nodus.Vm.Exceptions.{handle_exception, with_frames}
use nodus.Vm.Frames.{
  Host, Effect, continues, signals, raises, yielded, returned, halted, too_deep, slots_of,
}
use nodus.Vm.Step.{Instr, execute}

-- what the caller of `resume` gets: a value (`none` is nil) or an error
pub data Outcome (V : Type 0) : Type 0 where
  gives : Option V → Outcome V
  fails : Error V → Outcome V

-- the machine, the coroutine and the outcome
abbrev pub Resumed : Type 0 → Type 0 → Type 0
Resumed V M = Vm V M × Routine V M × Outcome V

-- the machine, the coroutine, and the error that comes out
abbrev pub Unwound : Type 0 → Type 0 → Type 0
Unwound V M = Vm V M × Routine V M × Option (Error V)

module _ {V M : Type 0} where
  -- the coroutine as the run has left it
  abbrev pub left_by : Routine V M → Option (Routine V M) → Routine V M
  left_by c none = c
  left_by c (some d) = d

  -- the run of the coroutine raised an error
  abbrev pub failed : Routine V M → Routine V M
  failed c = record c {
    state = State.finished;
    saved = record c.saved { stack = []; frames = []; handler_stack = [] };
    saved_ip = none;
  }

  abbrev pub with_result : Option V → Routine V M → Routine V M
  with_result v c = record c { last_result = v }

  -- the entry frame of a coroutine
  abbrev pub entry_frame : Closure → Frame V M
  entry_frame closure = record {
    return_ip = none;
    closure = some closure;
    locals = [];
    locals_array = none;
    locals_name_to_slot = slots_of closure.local_slots;
    cross_module_ctx = none;
  }

  abbrev pub fresh : Routine V M → Routine V M
  fresh c = record c {
    saved = record c.saved { stack = c.initial_args; frames = []; handler_stack = [] };
  }

  -- the `finally` clause of `resume`: the caller's context and its module's
  abbrev pub back_to : Vm V M → Vm V M → Vm V M
  back_to caller m =
      restore_module (restore_execution_context m (save_execution_context caller))
        (some caller.module_ctx)

  -- how the run of `execute` ends for the caller
  unfoldable pub resume_ends : Vm V M → Routine V M → Option (Effect V M) → Option (Resumed V M)
  unfolding restore_execution_context
  resume_ends caller c none = none
  resume_ends caller c (some (continues m)) = none
  resume_ends caller c (some (raises m e)) =
      some (back_to caller m, failed (left_by c m.current_coroutine), fails e)
  resume_ends caller c (some (signals m (yielded v))) =
      some (back_to caller m, left_by c m.current_coroutine, gives (some v))
  resume_ends caller c (some (signals m (returned v))) =
      some (back_to caller m, with_result (some v) (left_by c m.current_coroutine), gives (some v))
  resume_ends caller c (some (signals m halted)) =
      some (back_to caller m, left_by c m.current_coroutine, gives none)

  abbrev pub guarded : Vm V M → Routine V M → Option (Resumed V M) → Option (Resumed V M)
  guarded m c run =
      if c.closure.is_step_body && not c.step_authorized
      then some (m, c, fails (runtime step_entry))
      else run

  -- the `finally` clause of `unwind_cancelled_coroutine`
  abbrev pub unwound : Vm V M → Vm V M → Routine V M → Option (Error V) → Unwound V M
  unwound caller m c e = (
    restore_execution_context (record m { cancelling = false }) (save_execution_context caller),
    record (left_by c m.current_coroutine) { cancelling = none; state = State.finished },
    e,
  )

  unfoldable pub unwind_ends : Vm V M → Routine V M → Option (Effect V M) → Option (Unwound V M)
  unfolding restore_execution_context
  unwind_ends caller c none = none
  unwind_ends caller c (some (continues m)) = none
  unwind_ends caller c (some (raises m e)) = some (unwound caller m c (some e))
  unwind_ends caller c (some (signals m s)) = some (unwound caller m c none)

-- a coroutine that has not run
abbrev pub new_routine : {V M : Type 0} → Closure → Option M → Routine V M
new_routine closure origin = record {
  closure = closure;
  initial_args = [];
  step_authorized = false;
  last_result = none;
  pending_wait_error = none;
  state = State.created;
  saved = record {
    ip = 0;
    stack = [];
    frames = [];
    handler_stack = [];
    deferred_return = none;
    deferred_return_depth = 0;
    deferred_error = none;
    deferred_error_depth = 0;
  };
  saved_ip = none;
  cancelling = none;
  module_ctx = origin;
}

abbrev pub create_for : {V M : Type 0} → Host V M → Vm V M → Option Closure → Fault ⊎ Routine V M
create_for host m none = inl type_error
create_for host m (some c) =
    if length c.params == 0 then inr (new_routine c (host.foreign_origin m c)) else inl wrong_arity

-- coroutine(fn)
unfoldable pub create : {V M : Type 0} → Host V M → Vm V M → V → Fault ⊎ Routine V M
create host m v = create_for host m (host.as_closure v)

module _ {V M : Type 0} (host : Host V M) (code : M → List (Instr V)) (fuel : ℕ) where
  -- the machine on which the entry frame of a new coroutine runs
  abbrev pub first_run : Vm V M → Routine V M → Option (Resumed V M)
  first_run m c =
      let running = record (fresh c) { state = State.running } in
      let m₁ = load_coroutine_context m running in
      if too_deep m.max_frames 1
      then some (back_to m m₁, running, fails (runtime call_stack_overflow))
      else resume_ends m running (
          execute host code fuel
            (at_ip (with_frames m₁ (entry_frame c.closure ∷ [])) c.closure.addr))

  -- a failure of the task that the coroutine waited for is delivered to it
  abbrev pub after_delivery : Vm V M → Routine V M → Error V → Vm V M × Bool → Option (Resumed V M)
  after_delivery m running e (n, true) = resume_ends m running (execute host code fuel n)
  after_delivery m running e (n, false) = some (back_to m n, running, fails e)

  abbrev pub with_pending : Vm V M → Routine V M → Option (Error V) → Option (Resumed V M)
  with_pending m running none =
      resume_ends m running (execute host code fuel (load_coroutine_context m running))
  with_pending m running (some e) =
      after_delivery m running e
        (handle_exception host.error_record e (load_coroutine_context m running))

  abbrev pub next_run : Vm V M → Routine V M → Option (Resumed V M)
  next_run m c =
      with_pending m (record c { state = State.running; pending_wait_error = none })
        c.pending_wait_error

  abbrev pub resume_in : Vm V M → Routine V M → State → Option (Resumed V M)
  resume_in m c State.finished = some (m, c, fails (runtime resume_finished))
  resume_in m c State.running = some (m, c, fails (runtime resume_running))
  resume_in m c State.created = guarded m c (first_run m c)
  resume_in m c State.suspended = guarded m c (next_run m c)

  -- resume(coroutine)
  unfoldable pub resume : Vm V M → Routine V M → Option (Resumed V M)
  unfolding load_coroutine_context resume_ends
  resume m c = resume_in m c c.state

  abbrev pub unwind_from : Vm V M → Routine V M → Vm V M × Bool → Option (Unwound V M)
  unwind_from caller c (n, false) = some (unwound caller n c none)
  unwind_from caller c (n, true) = unwind_ends caller c (execute host code fuel n)

  -- VM.unwind_cancelled_coroutine: the machine, the coroutine, and the error that comes out
  unfoldable pub unwind_cancelled_coroutine : Vm V M → Routine V M → Error V → Option (Unwound V M)
  unfolding load_coroutine_context unwind_ends
  unwind_cancelled_coroutine m c e =
      let d = record c { cancelling = some e } in
      unwind_from m d (handle_exception host.error_record e (load_coroutine_context m d))
