-- ===== src/Scheduler/Join.antt =====
-- src/nodus/builtins/coroutine.py: `cancel`, `wait` and `_settled_outcome`, for a value that is a
-- coroutine.
use nodus.Prelude.{ℕ, Bool, true, false, not, Option, none, some, ◌∷◌, ◌==◌, if◌then◌else◌}
use nodus.Tasks.{World, Coroutine, State, created, finished, is_finished, set_coroutine}
use nodus.Channels.{same_task}
use nodus.Waiting.{unpark, awake, mark_completed, release_waiters, park_waiter, first_error}
use nodus.Scheduler.{unwind_cancelled_coroutine}
use nodus.Scheduler.Turn.{Host, Turn, is_none, goes, leaves, raises, drive_until_settled}

module _ {V E : Type 0} (run_finally : World V E → ℕ → E → World V E) (cancelled : E) where
  abbrev pub rouse : World V E → ℕ → World V E
  rouse w c = record w { sleeping_tasks = awake (w.coroutines c).id w.sleeping_tasks }

  -- the task is finished with the error
  abbrev pub finish_task : World V E → ℕ → World V E
  finish_task w c =
      let x = w.coroutines c in
      set_coroutine w c (record x { state = finished; cancelled_error = some cancelled })

  -- a task that was never entered has nothing to unwind; any other one runs its `finally` blocks
  abbrev pub stop_task : World V E → ℕ → State → World V E
  stop_task w c created = release_waiters (mark_completed (finish_task w c) c) c
  stop_task w c _ =
      let w₁ = finish_task (unwind_cancelled_coroutine run_finally w c cancelled) c in
      release_waiters (rouse (mark_completed w₁ c) c) c

  abbrev pub cancel_numbered : World V E → ℕ → Option ℕ → World V E × Bool
  cancel_numbered w c none = (w, false)
  cancel_numbered w c (some i) = (stop_task (unpark w c) c (w.coroutines c).state, true)

  -- builtin_cancel
  unfoldable pub cancel : World V E → ℕ → World V E × Bool
  cancel w c =
      let x = w.coroutines c in
      if is_finished x.state
      then (w, false)
      else if not (is_none x.cancelling)
      then (w, false)
      else cancel_numbered w c x.id

-- What `wait` does: return a value, raise a task's failure or an error of its own, or suspend the
-- coroutine that called it. `unsettled` is a drive that has not ended within its passes.
pub data Joined (V E : Type 0) : Type 0 where
  returned : V → Joined V E
  raised : E → Joined V E
  never_spawned joins_itself blocked parked unsettled : Joined V E

module _ {V E : Type 0} where
  abbrev pub outcome_of : Option E → V → Joined V E
  outcome_of (some e) v = raised e
  outcome_of none v = returned v

  -- _settled_outcome
  abbrev pub settled_outcome : Coroutine V E → Joined V E
  settled_outcome x = outcome_of (first_error x.cancelled_error x.failure) x.last_result

  -- the end of a top-level `wait`, by how the drive ended
  abbrev pub after_drive : ℕ → Turn V E → World V E × Joined V E
  after_drive c (goes w stop) = (w, unsettled)
  after_drive c (raises w e) = (w, raised e)
  after_drive c (leaves w) =
      if is_finished (w.coroutines c).state
      then (w, settled_outcome (w.coroutines c))
      else (w, blocked)

  -- the waiter's stack is the VM's, with a place for the result on top
  abbrev pub park_on : V → World V E → ℕ → ℕ → ℕ → World V E
  park_on nil w waiter c i =
      let stack = nil ∷ w.vm_stack in
      let w₁ = set_coroutine w waiter (record (w.coroutines waiter) { stack = stack }) in
      park_waiter (record w₁ { vm_stack = stack }) waiter c i

module _ {V E : Type 0} (host : Host V E) (n : ℕ) where
  abbrev pub wait_live : World V E → ℕ → ℕ → Option ℕ → World V E × Joined V E
  wait_live w c i none = after_drive c (drive_until_settled host n w c)
  wait_live w c i (some waiter) =
      if waiter == c then (w, joins_itself) else (park_on host.nil w waiter c i, parked)

  abbrev pub wait_numbered : World V E → ℕ → Option ℕ → World V E × Joined V E
  wait_numbered w c none = (w, never_spawned)
  wait_numbered w c (some i) =
      let w₁ = set_coroutine w c (record (w.coroutines c) { waited_on = true }) in
      if is_finished (w.coroutines c).state
      then (w, settled_outcome (w.coroutines c))
      else wait_live w₁ c i (same_task w.current_coroutine w.current_task)

  -- builtin_wait, with at most `n` passes of the loop at top level
  unfoldable pub wait : World V E → ℕ → World V E × Joined V E
  wait w c = wait_numbered w c (w.coroutines c).id
