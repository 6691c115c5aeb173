-- ===== src/Waiting.antt =====
-- src/nodus/runtime/scheduler.py: `spawn` with `_ensure_metadata`, `park_waiter`, `release_waiters`,
-- `_mark_completed` and `unpark`. The names, modules and times of a coroutine's metadata and the
-- events are left out: nothing here reads them.
pub mod Informs
pub mod Numbers
pub mod Release
pub mod Tests
pub mod Unpark
use nodus.Prelude.{
  ℕ, ◌+◌, Bool, true, false, Option, none, some, List, [], ◌∷◌, ◌++◌, ◌==◌, if◌then◌else◌,
}
use nodus.Tasks.{
  World, Coroutine, Timer, suspended, finished, is_finished, is_suspended, Ref, channel, task,
  task_wait, update, discard, contains, add, set_top, set_coroutine, age, unblocked,
}
use nodus.Channels.{is_empty}

-- deque.remove: the first occurrence. `==` of coroutines compares their fields, and the ids of two
-- tasks differ.
unfoldable pub remove : ℕ → List ℕ → List ℕ
remove c [] = []
remove c (x ∷ xs) = if x == c then xs else x ∷ remove c xs

unfoldable pub without : {A : Type 0} → (A → ℕ) → ℕ → List A → List A
without f c [] = []
without f c (x ∷ xs) = let rest = without f c xs in if f x == c then rest else x ∷ rest

abbrev pub awake : Option ℕ → List ℕ → List ℕ
awake none ids = ids
awake (some i) ids = discard i ids

-- `cancelled_error or failure`
abbrev pub first_error : {E : Type 0} → Option E → Option E → Option E
first_error (some e) f = some e
first_error none f = f

module _ {V E : Type 0} where
  -- the coroutine is numbered and registered
  abbrev pub number : World V E → ℕ → World V E
  number w c = record w {
    coroutines = update w.coroutines c (record (w.coroutines c) { id = some w.next_id });
    next_id = w.next_id + 1;
    total_tasks_spawned = w.total_tasks_spawned + 1;
    tasks = update w.tasks w.next_id (some c);
    task_ages = update w.task_ages w.next_id (w.total_tasks_spawned + 1);
  }

  -- Scheduler._ensure_metadata
  unfoldable pub ensure_metadata : World V E → ℕ → World V E
  ensure_metadata w c = elim (w.coroutines c).id [ none ↦ number w c | some i ↦ w ]

  -- Scheduler.spawn
  unfoldable pub spawn : World V E → ℕ → World V E
  unfolding ensure_metadata
  spawn w c =
      let w₁ = ensure_metadata w c in
      if is_finished (w.coroutines c).state then w else record w₁ {
        spawned_without_loop = w₁.spawned_without_loop + 1;
        ready_queue = w₁.ready_queue ++ c ∷ [];
        task_ages = age w₁.task_ages (w₁.coroutines c).id w₁.total_tasks_spawned;
      }

  -- Scheduler.park_waiter, for a target whose id is `i`
  unfoldable pub park_waiter : World V E → ℕ → ℕ → ℕ → World V E
  park_waiter w waiter target i = record w {
    coroutines = update w.coroutines waiter (record (w.coroutines waiter) {
      state = suspended;
      blocked_on = some (Ref.task target);
      blocked_reason = some task_wait;
    });
    waiters = update w.waiters i (w.waiters i ++ waiter ∷ []);
  }

  -- what a waiter is handed: the failure, or the result on top of its stack
  abbrev pub informed : Option E → V → Coroutine V E → Coroutine V E
  informed (some e) v x = record x {
    blocked_on = none;
    blocked_reason = none;
    pending_wait_error = some e;
  }
  informed none v x = record x {
    blocked_on = none;
    blocked_reason = none;
    stack = set_top v x.stack;
  }

  -- the body of the loop of `release_waiters`
  unfoldable pub release_waiter : World V E → Option E → V → ℕ → World V E
  release_waiter w e v x =
      let w₁ = set_coroutine w x (informed e v (w.coroutines x)) in
      if is_suspended (w.coroutines x).state
      then record w₁ { ready_queue = w₁.ready_queue ++ x ∷ [] }
      else w₁

  unfoldable pub release_loop : World V E → Option E → V → List ℕ → World V E
  release_loop w e v [] = w
  release_loop w e v (x ∷ xs) = release_loop (release_waiter w e v x) e v xs

  abbrev pub release_by : World V E → Coroutine V E → Option ℕ → World V E
  release_by w t none = w
  release_by w t (some i) =
      release_loop (record w { waiters = update w.waiters i [] })
        (first_error t.cancelled_error t.failure) t.last_result (w.waiters i)

  -- Scheduler.release_waiters
  unfoldable pub release_waiters : World V E → ℕ → World V E
  release_waiters w target = release_by w (w.coroutines target) (w.coroutines target).id

  -- Scheduler._mark_completed
  unfoldable pub mark_completed : World V E → ℕ → World V E
  mark_completed w c = elim (w.coroutines c).id [
    | none ↦ w
    | some i ↦
        if contains w.completed_ids i
        then w
        else release_waiters
            (record w {
              completed_ids = add i w.completed_ids;
              completed_tasks = w.completed_tasks ++ c ∷ [];
            })
            c
  ]

  -- the coroutine leaves the channel that it is blocked on, and the channel the loop's registers
  -- once nobody waits on it
  abbrev pub leave_channel : World V E → ℕ → Option Ref → World V E
  leave_channel w c (some (Ref.channel h)) =
      let ch = w.channels h in
      let rs = without (λ r. r) c ch.waiting_receivers in
      let ss = without (λ p. p.0) c ch.waiting_senders in
      record w {
        channels = update w.channels h (record ch { waiting_receivers = rs; waiting_senders = ss });
        recv_channels = if is_empty rs then discard h w.recv_channels else w.recv_channels;
        send_channels = if is_empty ss then discard h w.send_channels else w.send_channels;
      }
  leave_channel w c _ = w

  abbrev pub dequeue : World V E → ℕ → World V E
  dequeue w c = record w {
    ready_queue = remove c w.ready_queue;
    timers = without (λ t. t.sleeper) c w.timers;
    sleeping_tasks = awake (w.coroutines c).id w.sleeping_tasks;
  }

  -- Scheduler.unpark
  unfoldable pub unpark : World V E → ℕ → World V E
  unpark w c =
      set_coroutine (leave_channel (dequeue w c) c (w.coroutines c).blocked_on) c
        (unblocked (w.coroutines c))
