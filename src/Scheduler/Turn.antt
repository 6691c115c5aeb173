-- ===== src/Scheduler/Turn.antt =====
-- src/nodus/runtime/scheduler.py: `run_loop` and `drive_until_settled`. What the loop calls is a
-- `Host`: the resumption of a coroutine on its VM, the unwinding of one, the time source and the
-- callbacks, which may all change the world. The deadline of the VM, its step budget, the events,
-- the trace and the printing of errors are left out: nothing here reads them.
use nodus.Prelude.{
  ℕ, zero, suc, ◌+◌, ◌-◌, Bool, true, false, not, Option, none, some, List, [], ◌∷◌, ◌++◌, ltb,
  ◌==◌, if◌then◌else◌, ◌||◌, ◌&&◌,
}
use nodus.Tasks.{World, Timer, is_finished, is_suspended, set_coroutine}
use nodus.Channels.{is_empty}
use nodus.Waiting.{awake, mark_completed, release_waiters}
use nodus.Scheduler.{ℤ, schedule_sleep, drain_timers, drain_io_channels, unwind_cancelled_coroutine}

-- What a resumption gives: a value that asks for a channel wait or for a sleep (`none` for a
-- sleep that is no number), any other value, an error of the task, or a limit of the execution.
pub data Outcome (E : Type 0) : Type 0 where
  channel_wait yielded : Outcome E
  sleep : Option ℤ → Outcome E
  failed limit_exceeded : E → Outcome E

pub record Host (V E : Type 0) : Type 0 where
  -- owner.builtin_coroutine_resume
  pub resume : World V E → ℕ → World V E × Outcome E
  -- the pending `finally` blocks of a coroutine, with an error that is not caught
  pub run_finally : World V E → ℕ → E → World V E
  -- time_source.wait, in milliseconds
  pub wait : World V E → ℕ → World V E
  pub deadlock : World V E → E
  pub timeout : E
  pub nil : V
  pub on_complete : Option (World V E → ℕ → World V E × Bool)
  pub on_error : Option (World V E → ℕ → E → World V E × Bool)
  pub until : Option (World V E → Bool)

-- What one pass of the loop does: go on, with the variable `stop`, leave the loop, or raise.
pub data Turn (V E : Type 0) : Type 0 where
  goes : World V E → Bool → Turn V E
  leaves : World V E → Turn V E
  raises : World V E → E → Turn V E

-- Some id below `n` has waiters.
abbrev pub any_waiting : ℕ → (ℕ → List ℕ) → Bool
any_waiting zero waiters = false
any_waiting (suc n) waiters = not (is_empty (waiters n)) || any_waiting n waiters

-- `elapsed is not None and timeout is not None and elapsed > timeout`
abbrev pub overdue : Option ℕ → Option ℕ → ℕ → Bool
overdue (some limit) (some started) now = ltb limit (now - started)
overdue _ _ now = false

-- the stamp of a task with a timeout, at its first resumption
abbrev pub started : Option ℕ → Option ℕ → ℕ → Option ℕ
started (some limit) none now = some now
started _ stamp now = stamp

-- any(finally_ip for ...)
abbrev pub any_finally : List ℕ → Bool
any_finally [] = false
any_finally (ip ∷ ips) = not (ip == 0) || any_finally ips

abbrev pub is_none : {A : Type 0} → Option A → Bool
is_none none = true
is_none (some a) = false

module _ {V E : Type 0} where
  -- Scheduler.has_parked_waiters: an id that has waiters was given out
  abbrev pub has_parked_waiters : World V E → Bool
  has_parked_waiters w = any_waiting w.next_id w.waiters

  -- the condition of the loop, but for the last line
  abbrev pub has_sources : World V E → Bool
  has_sources w =
      not (is_empty w.timers)
      || not (is_empty w.io_channels)
      || not (is_empty w.recv_channels)
      || not (is_empty w.send_channels)

  abbrev pub has_work : World V E → Bool
  has_work w = not (is_empty w.ready_queue) || has_sources w || has_parked_waiters w

  abbrev pub asks : Option (World V E → Bool) → World V E → Bool
  asks none w = false
  asks (some until) w = until w

  abbrev pub notify_complete :
      Option (World V E → ℕ → World V E × Bool) → World V E → ℕ → Bool → World V E × Bool
  notify_complete none w c stop = (w, stop)
  notify_complete (some f) w c stop = ((f w c).0, (f w c).1 || stop)

  abbrev pub notify_error :
      Option (World V E → ℕ → E → World V E × Bool) → World V E → ℕ → E → Bool → World V E × Bool
  notify_error none w c e stop = (w, stop)
  notify_error (some f) w c e stop = f w c e

  -- `if stop: break`, else `continue`
  abbrev pub unless_stopped : World V E × Bool → Turn V E
  unless_stopped (w, stop) = if stop then leaves w else goes w stop

  abbrev pub release_current : Turn V E → Turn V E
  release_current (goes w stop) = goes (record w { current_task = none }) stop
  release_current (leaves w) = leaves (record w { current_task = none })
  release_current (raises w e) = raises (record w { current_task = none }) e

  -- the bookkeeping of a task that timed out or failed: completed, and not asleep
  unfoldable pub settle : World V E → ℕ → World V E
  settle w c =
      let w₁ = mark_completed w c in
      record w₁ { sleeping_tasks = awake (w₁.coroutines c).id w₁.sleeping_tasks }

module _ {V E : Type 0} (host : Host V E) where
  -- a popped coroutine that is past its timeout
  unfoldable pub expire : World V E → ℕ → World V E
  expire w c =
      let x = w.coroutines c in
      let unwound = is_none x.cancelling && any_finally x.finally_ips in
      let w₁ = unwind_cancelled_coroutine host.run_finally w c host.timeout in
      settle (if unwound then w₁ else w) c

  unfoldable pub time_out : World V E → ℕ → Bool → Turn V E
  time_out w c stop = unless_stopped (notify_error host.on_error (expire w c) c host.timeout stop)

  -- the failure of a resumed task: recorded, reported unless somebody waits for it, and settled
  unfoldable pub record_failure : World V E → ℕ → E → World V E
  record_failure w c e =
      let x = w.coroutines c in
      let w₁ = set_coroutine w c (record x { failure = some e }) in
      let w₂ = record w₁ {
        coroutine_errors = if x.waited_on then w.coroutine_errors else w.coroutine_errors ++ e ∷ [];
      } in
      settle (release_waiters w₂ c) c

  unfoldable pub fail : World V E → ℕ → E → Bool → Turn V E
  fail w c e stop =
      release_current (unless_stopped (notify_error host.on_error (record_failure w c e) c e stop))

  -- a task that left the state suspended
  abbrev pub complete : World V E → ℕ → Bool → Turn V E
  complete w c stop =
      let (w₁, stop₁) = notify_complete host.on_complete (mark_completed w c) c stop in
      if is_finished (w.coroutines c).state then goes w₁ stop₁ else goes w stop

  abbrev pub requeue : World V E → ℕ → Bool → Turn V E
  requeue w c stop =
      let w₁ = record w { ready_queue = w.ready_queue ++ c ∷ [] } in
      if stop then leaves w₁ else goes w₁ stop

  -- a task that is suspended, by the value that it yielded
  abbrev pub suspend : World V E → ℕ → Bool → Outcome E → Turn V E
  suspend w c stop (sleep (some ms)) = goes (schedule_sleep w c ms) stop
  suspend w c stop (sleep none) = goes w stop
  suspend w c stop channel_wait = goes w stop
  suspend w c stop _ = requeue w c stop

  abbrev pub after_resume : World V E × Outcome E → ℕ → Bool → Turn V E
  after_resume (w, limit_exceeded e) c stop = raises (record w { current_task = none }) e
  after_resume (w, failed e) c stop = fail w c e stop
  after_resume (w, o) c stop =
      let w₁ = record w { current_task = none } in
      if is_suspended (w.coroutines c).state then suspend w₁ c stop o else complete w₁ c stop

  -- the world in which the task is resumed
  abbrev pub entering : World V E → ℕ → World V E
  entering w c =
      let x = w.coroutines c in
      record (set_coroutine w c
        (record x { task_started_at = started x.task_timeout_ms x.task_started_at w.now_ms })) {
          current_task = some c;
          total_resumes = w.total_resumes + 1;
        }

  unfoldable pub drive : World V E → ℕ → Bool → Turn V E
  drive w c stop = after_resume (host.resume (entering w c) c) c stop

  -- the coroutine `c` was popped from the ready queue
  unfoldable pub serve : World V E → ℕ → Bool → Turn V E
  serve w c stop =
      let x = w.coroutines c in
      if is_finished x.state
      then goes w stop
      else if overdue x.task_timeout_ms x.task_started_at w.now_ms
      then time_out w c stop
      else drive w c stop

  abbrev pub pop_ready : World V E → List ℕ → Bool → Turn V E
  pop_ready w [] stop = goes w stop
  pop_ready w (c ∷ rest) stop = serve (record w { ready_queue = rest }) c stop

  abbrev pub drain : World V E → World V E
  drain w = drain_io_channels host.nil (drain_timers w)

  -- nothing is ready: wait for the first timer or for the host's threads, or report the deadlock
  abbrev pub poll : World V E → ℕ → ℕ
  poll w d = if is_empty w.io_channels then d else if ltb d 1 then d else 1

  abbrev pub await_timer : World V E → List Timer → World V E
  await_timer w [] = w
  await_timer w (t ∷ ts) =
      if ltb w.now_ms t.wake then host.wait w (poll w (t.wake - w.now_ms)) else w

  abbrev pub drained : World V E → Bool → Turn V E
  drained w stop = pop_ready (drain w) (drain w).ready_queue stop

  unfoldable pub idle : World V E → Bool → Turn V E
  idle w stop =
      if not (has_sources w)
      then leaves w
      else if not (is_empty w.timers)
      then drained (await_timer w w.timers) stop
      else if not (is_empty w.io_channels)
      then drained (host.wait w 1) stop
      else raises w (host.deadlock w)

  -- the body of the loop once the wake-ups are done
  abbrev pub dispatch : World V E → Bool → Turn V E
  dispatch w stop = if is_empty w.ready_queue then idle w stop else pop_ready w w.ready_queue stop

  -- one pass of the loop
  unfoldable pub turn : World V E → Bool → Turn V E
  turn w stop =
      if not (has_work w)
      then leaves w
      else if asks host.until w
      then leaves w
      else dispatch (drain w) stop

  -- `n` passes, or fewer if the loop ends
  unfoldable pub turns : ℕ → Turn V E → Turn V E
  turns zero t = t
  turns (suc n) (goes w stop) = turns n (turn w stop)
  turns (suc n) (leaves w) = leaves w
  turns (suc n) (raises w e) = raises w e

  abbrev finish : Turn V E → Turn V E
  finish (leaves w) = leaves (record w { spawned_without_loop = 0 })
  finish t = t

  -- Scheduler.run_loop, for at most `n` passes; `goes` is a loop that has not ended
  unfoldable pub run_loop : ℕ → World V E → Turn V E
  run_loop n w = finish (turns n (goes (record w { spawned_without_loop = 0 }) false))

-- Scheduler.drive_until_settled
abbrev pub drive_until_settled : {V E : Type 0} → Host V E → ℕ → World V E → ℕ → Turn V E
drive_until_settled host n w c =
    run_loop
      (record host {
        on_complete = none;
        on_error = none;
        until = some (λ w₁. is_finished (w₁.coroutines c).state);
      })
      n w
