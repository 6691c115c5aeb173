-- ===== src/Scheduler/Tests.antt =====
-- Small runs of the loop, and the theorems of the scheduler at concrete worlds. A Nodus value and an
-- error are numbers here, and 0 stands for nil.
use nodus.Prelude.{
  ℕ, ◌+◌, ◌≡◌, if◌then◌else◌, inl, refl, true, false, none, some, List, [], ◌∷◌, arith,
}
use nodus.Tasks.{World, Timer, suspended, finished, contains, set_coroutine}
use nodus.Channels.Tests.{idle, running_in, full}
use nodus.Waiting.{
  spawn, mark_completed, release_waiters, release_loop, release_waiter, unpark, ensure_metadata,
}
use nodus.Scheduler.{
  pos, negsuc, schedule_sleep, schedule_delay, drain_timers, drain_loop, wake_timer, heappush,
  drain_ios,
}
use nodus.Scheduler.Heap.{Timed}
use nodus.Scheduler.Timers.{drain_timers-wakes}
use nodus.Scheduler.Turn.{
  Host, Turn, goes, leaves, raises, yielded, turn, serve, drive, expire, record_failure,
}
use nodus.Scheduler.Builtins.{sleep_until, channel, int_of, float_of}
use nodus.Scheduler.Join.{cancel, wait, raised, parked, joins_itself}
use nodus.Scheduler.Cancelled.{Closed, cancel-Closed, cancelled_stays}
use nodus.Scheduler.Joining.{Handed, wait-Handed}
use nodus.Scheduler.Timeout.{expire-silent, record_failure-once, ListedOrWaited}
use nodus.Tasks.{set_coroutine}
use nodus.Waiting.{release_waiters, mark_completed, release_loop, release_waiter}
use nodus.Scheduler.Turn.{settle}
use nodus.Scheduler.Liveness.{Fair, Due-finish, Served}
use nodus.Scheduler.Served.{ready_queue-Served}

abbrev timer : ℕ → ℕ → ℕ → Timer
timer at n c = record { wake = at; seq = n; sleeper = c }

-- Tasks are numbered like their coroutines; 2 and 3 sleep, 4 and 5 are ready, and it is 20.
abbrev world : World ℕ ℕ
world = record (running_in full none) {
  coroutines = λ c. record (idle suspended) { id = some c };
  ready_queue = 4 ∷ 5 ∷ [];
  timers = timer 10 1 2 ∷ timer 30 2 3 ∷ [];
  counter = 2;
  sleeping_tasks = 2 ∷ 3 ∷ [];
  now_ms = 20;
  next_id = 9;
}

world-Timed : Timed world
world-Timed = (((inl (omega arith), tt), (tt, tt)), (omega arith, (omega arith, tt)))

-- A task returns 7 as soon as it is resumed.
abbrev host : Host ℕ ℕ
host = record {
  resume = λ w c.
      (set_coroutine w c (record (w.coroutines c) { state = finished; last_result = 7 }), yielded);
  run_finally = λ w c e. w;
  wait = λ w ms. record w { now_ms = w.now_ms + ms };
  deadlock = λ w. 13;
  timeout = 14;
  nil = 0;
  on_complete = none;
  on_error = none;
  until = none;
}

sleeps_in_order :
    (schedule_sleep world 6 (pos 10)).timers ≡ timer 10 1 2 ∷ timer 30 2 3 ∷ timer 30 3 6 ∷ []
unfolding schedule_sleep heappush
sleeps_in_order = refl

negative_sleep :
    (schedule_sleep world 6 (negsuc 4)).timers ≡ timer 10 1 2 ∷ timer 20 3 6 ∷ timer 30 2 3 ∷ []
unfolding schedule_sleep heappush
negative_sleep = refl

abbrev queue_after : Turn ℕ ℕ → List ℕ
queue_after (goes w s) = w.ready_queue
queue_after (leaves w) = w.ready_queue
queue_after (raises w e) = []

one_turn : queue_after (turn host world false) ≡ 5 ∷ 2 ∷ []
unfolding turn drain_timers drain_loop wake_timer drain_ios serve drive mark_completed contains
    release_waiters release_loop
one_turn = refl

drain_timers-wakes_example :
    ((drain_timers world).ready_queue ≡ 4 ∷ 5 ∷ 2 ∷ [])
    × ((drain_timers world).timers ≡ timer 30 2 3 ∷ [])
drain_timers-wakes_example = drain_timers-wakes world world-Timed

cancel-Closed_example :
    Closed (cancel host.run_finally 21 world 4).0 4 4 21
    × ((cancel host.run_finally 21 world 4).1 ≡ true)
cancel-Closed_example =
    cancel-Closed host.run_finally 21 (λ w c e. refl) 4 4 world refl (λ h. ground arith) refl

cancelled_stays_example :
    let w₁ = (cancel host.run_finally 21 world 4).0 in
    (cancel host.run_finally 21 w₁ 4 ≡ (w₁, false)) × (wait host 9 w₁ 4 ≡ (w₁, raised 21))
cancelled_stays_example =
    cancelled_stays host.run_finally 21 (λ w c e. refl) world 4 4 refl (λ h. ground arith) refl host
      9

-- Task 3 runs.
abbrev inside : World ℕ ℕ
inside = record world { current_coroutine = some 3; current_task = some 3; vm_stack = 8 ∷ [] }

waits_for_itself : (wait host 9 inside 3).1 ≡ joins_itself
unfolding wait
waits_for_itself = refl

abbrev waiting : World ℕ ℕ
waiting = (wait host 9 inside 4).0

wait-Handed_example :
    ((wait host 9 inside 4).1 ≡ parked)
    × (contains (waiting.waiters 4) 3 ≡ true)
    × Handed none 0 (8 ∷ []) ((mark_completed waiting 4).coroutines 3)
    × (((mark_completed waiting 4).coroutines 3).blocked_on ≡ none)
    × (contains (mark_completed waiting 4).ready_queue 3 ≡ true)
unfolding wait nodus.Waiting.park_waiter contains
wait-Handed_example =
    wait-Handed host 9 inside 4 4 3 refl (λ h. ground arith) refl (λ h. ground arith) waiting refl
      refl refl refl

-- Tasks 2 and 3 wait for task 4.
abbrev awaited : World ℕ ℕ
awaited = record world { waiters = λ i. 2 ∷ 3 ∷ [] }

expire-silent_example :
    (((expire host awaited 4).coroutines 3).stack ≡ 0 ∷ [])
    × (((expire host awaited 4).coroutines 3).pending_wait_error ≡ none)
    × (((expire host awaited 4).coroutines 4).state ≡ suspended)
unfolding contains
expire-silent_example = expire-silent host awaited 4 4 3 refl refl refl refl refl refl 0 [] refl

-- somebody called `wait` for task 4
abbrev waited : World ℕ ℕ
waited = set_coroutine awaited 4 (record (awaited.coroutines 4) { waited_on = true })

record_failure-once_example :
    ListedOrWaited host waited 4 4 3 31 (record_failure host waited 4 31)
    × (((record_failure host waited 4 31).coroutines 3).pending_wait_error ≡ (
        if contains (waited.waiters 4) 3
        then some 31
        else (waited.coroutines 3).pending_wait_error))
    × ((record_failure host waited 4 31).waiters 4 ≡ [])
record_failure-once_example =
    record_failure-once host waited 4 4 3 31 refl refl (inl refl) (λ h. ground arith)

waited_error_is_handed_over :
    ((record_failure host waited 4 31).coroutine_errors ≡ [])
    × (((record_failure host waited 4 31).coroutines 3).pending_wait_error ≡ some 31)
unfolding record_failure settle release_waiters mark_completed release_loop release_waiter contains
waited_error_is_handed_over = (refl, refl)

host-Fair : Fair host
host-Fair = record {
  resume = λ n d w c h. Due-finish n d w c _ refl h;
  run_finally = λ n d w c e h. h;
  on_complete = λ n d w c s h. h;
  on_error = λ n d w c e s h. h;
}

ready_queue-Served_example : Served host 1 world false 5
ready_queue-Served_example =
    ready_queue-Served host host-Fair 5 1 world false (record { holds = refl })

abbrev delayed : World ℕ ℕ
delayed = schedule_delay (record world { spawned_without_loop = 1 }) 6 (pos 50)

sleeps_to_deadline :
    (sleep_until world (int_of (pos 32)) ≡ some 12) × (sleep_until world (int_of (pos 3)) ≡ some 0)
unfolding sleep_until
sleeps_to_deadline = (refl, refl)

no_float_bound : channel {V = ℕ} (float_of (pos 2)) ≡ none
unfolding channel
no_float_bound = refl
