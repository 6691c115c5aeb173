-- ===== src/Scheduler/Timers.antt =====
-- What draining the timers wakes, and that every operation keeps the heap in order.
use mathlib.Core.List.{append-nil, append_assoc}
use nodus.Prelude.{
  ℕ, Option, none, some, ◌≤◌, ◌≡◌, refl, sym, ap, ◌∙◌, Bool, true, false, not, List, [], ◌∷◌, ◌++◌,
  arith, All, leb, ◌==◌, if◌then◌else◌,
}
use nodus.Tasks.{World, Coroutine, Timer, Ref, is_finished}
use nodus.Waiting.{without, ensure_metadata, unpark, dequeue, leave_channel}
use nodus.Scheduler.{ℤ, schedule_sleep, schedule_delay, wake_timer, drain_loop, drain_timers}
use nodus.Scheduler.Heap.{Ordered, Before, Timed, schedule_sleep-Timed}

-- the entries that a test keeps
abbrev pub kept : (Timer → Bool) → List Timer → List Timer
kept p [] = []
kept p (t ∷ ts) = if p t then t ∷ kept p ts else kept p ts

abbrev pub due : ℕ → Timer → Bool
due now t = leb t.wake now

-- the sleepers among the entries that have not finished
abbrev pub live : {V E : Type 0} → (ℕ → Coroutine V E) → List Timer → List ℕ
live cs [] = []
live cs (t ∷ ts) = if is_finished (cs t.sleeper).state then live cs ts else t.sleeper ∷ live cs ts

later_kept :
    (now : ℕ) (t : Timer) (ts : List Timer)
    → leb t.wake now ≡ false
    → All (Before t) ts
    → (kept (due now) ts ≡ []) × (kept (λ s. not (due now s)) ts ≡ ts)
later_kept now t [] h a = (refl, refl)
later_kept now t (s ∷ ts) h a = ground (arith, later_kept now t ts h a.1)

module _ {V E : Type 0} (now : ℕ) where
  coroutines-wake : (w : World V E) (c : ℕ) → (wake_timer w c).coroutines ≡ w.coroutines
  unfolding wake_timer
  coroutines-wake w c = ground arith

  ready-wake :
      (w : World V E) (t : Timer) (ts : List Timer)
      → (wake_timer w t.sleeper).ready_queue ++ live w.coroutines ts
        ≡ w.ready_queue ++ live w.coroutines (t ∷ ts)
  unfolding wake_timer
  ready-wake w t ts = by_state (is_finished (w.coroutines t.sleeper).state) refl
    where
      by_state :
          (b : Bool)
          → is_finished (w.coroutines t.sleeper).state ≡ b
          → (wake_timer w t.sleeper).ready_queue ++ live w.coroutines ts
            ≡ w.ready_queue
              ++ (if b then live w.coroutines ts else t.sleeper ∷ live w.coroutines ts)
      by_state true h = rw h refl
      by_state false h = rw h (append_assoc w.ready_queue (t.sleeper ∷ []) (live w.coroutines ts))

  drain_loop-wakes :
      (w : World V E) (ts : List Timer)
      → Ordered ts
      → ((drain_loop now w ts).ready_queue ≡ w.ready_queue ++ live w.coroutines (kept (due now) ts))
        × ((drain_loop now w ts).timers ≡ kept (λ t. not (due now t)) ts)
  unfolding drain_loop
  drain_loop-wakes w [] o = (sym (append-nil w.ready_queue), refl)
  drain_loop-wakes w (t ∷ ts) o =
      by_time (leb t.wake now) refl (drain_loop-wakes (wake_timer w t.sleeper) ts o.1)
    where
      by_time :
          (b : Bool)
          → leb t.wake now ≡ b
          → ((drain_loop now (wake_timer w t.sleeper) ts).ready_queue
              ≡ (wake_timer w t.sleeper).ready_queue
                ++ live (wake_timer w t.sleeper).coroutines (kept (due now) ts))
            × ((drain_loop now (wake_timer w t.sleeper) ts).timers ≡ kept (λ t. not (due now t)) ts)
          → ((drain_loop now w (t ∷ ts)).ready_queue
              ≡ w.ready_queue ++ live w.coroutines (kept (due now) (t ∷ ts)))
            × ((drain_loop now w (t ∷ ts)).timers ≡ kept (λ t. not (due now t)) (t ∷ ts))
      by_time true h rest = rw h (
        rest.0
            ∙ ap (λ cs. (wake_timer w t.sleeper).ready_queue ++ live cs (kept (due now) ts))
                (coroutines-wake w t.sleeper)
            ∙ ready-wake w t (kept (due now) ts),
        rest.1,
      )
      by_time false h rest =
          let none_due = later_kept now t ts h o.0 in
          rw (h, none_due.0, none_due.1) (sym (append-nil w.ready_queue), refl)

-- Draining wakes the timers whose time has come, and no other: their coroutines that have not
-- finished join the ready queue in the order of their times, those of one time in the order in which
-- they went to sleep, and the other timers stay. The heap is in order.
pub drain_timers-wakes :
    {V E : Type 0} (w : World V E)
    → Timed w
    → ((drain_timers w).ready_queue
        ≡ w.ready_queue ++ live w.coroutines (kept (due w.now_ms) w.timers))
      × ((drain_timers w).timers ≡ kept (λ t. not (due w.now_ms t)) w.timers)
unfolding drain_timers
drain_timers-wakes w (o, n) = drain_loop-wakes w.now_ms w w.timers o

All-kept : (P : Timer → Type 0) (p : Timer → Bool) (ts : List Timer) → All P ts → All P (kept p ts)
All-kept P p [] a = tt
All-kept P p (t ∷ ts) a = by_test (p t) (All-kept P p ts a.1)
  where
    by_test : (b : Bool) → All P (kept p ts) → All P (if b then t ∷ kept p ts else kept p ts)
    by_test true rest = (a.0, rest)
    by_test false rest = rest

kept-Ordered : (p : Timer → Bool) (ts : List Timer) → Ordered ts → Ordered (kept p ts)
kept-Ordered p [] o = tt
kept-Ordered p (t ∷ ts) o = by_test (p t) (kept-Ordered p ts o.1)
  where
    by_test : (b : Bool) → Ordered (kept p ts) → Ordered (if b then t ∷ kept p ts else kept p ts)
    by_test true rest = (All-kept (Before t) p ts o.0, rest)
    by_test false rest = rest

without-kept :
    (c : ℕ) (ts : List Timer) → without (λ t. t.sleeper) c ts ≡ kept (λ t. not (t.sleeper == c)) ts
unfolding without
without-kept c [] = refl
without-kept c (t ∷ ts) = ground (arith, without-kept c ts)

module _ {V E : Type 0} where
  counter-wake : (w : World V E) (c : ℕ) → (wake_timer w c).counter ≡ w.counter
  unfolding wake_timer
  counter-wake w c = ground arith

  counter-drain :
      (now : ℕ) (w : World V E) (ts : List Timer) → (drain_loop now w ts).counter ≡ w.counter
  unfolding drain_loop
  counter-drain now w [] = refl
  counter-drain now w (t ∷ ts) =
      ground (arith, counter-drain now (wake_timer w t.sleeper) ts, counter-wake w t.sleeper)

module _ {V E : Type 0} (w : World V E) (timed : Timed w) where
  kept-Timed :
      (w₁ : World V E) (p : Timer → Bool)
      → w₁.timers ≡ kept p w.timers
      → w₁.counter ≡ w.counter
      → Timed w₁
  kept-Timed w₁ p e k =
      rw (e, k)
        (kept-Ordered p w.timers timed.0, All-kept (λ t. t.seq ≤ w.counter) p w.timers timed.1)

  drain_timers-Timed : Timed (drain_timers w)
  unfolding drain_timers
  drain_timers-Timed =
      kept-Timed (drain_timers w) (λ t. not (due w.now_ms t)) (drain_timers-wakes w timed).1
        (counter-drain w.now_ms w w.timers)

module _ {V E : Type 0} (w : World V E) (c : ℕ) where
  timers-ensure : (ensure_metadata w c).timers ≡ w.timers
  unfolding ensure_metadata
  timers-ensure = ground arith

  counter-ensure : (ensure_metadata w c).counter ≡ w.counter
  unfolding ensure_metadata
  counter-ensure = ground arith

  ensure-Timed : Timed w → Timed (ensure_metadata w c)
  ensure-Timed timed = rw (timers-ensure, counter-ensure) timed

  schedule_delay-Timed : (ms : ℤ) → Timed w → Timed (schedule_delay w c ms)
  unfolding schedule_delay
  schedule_delay-Timed ms timed = by_state (is_finished (w.coroutines c).state)
    where
      by_state : (b : Bool) → Timed (if b then w else schedule_sleep (ensure_metadata w c) c ms)
      by_state true = timed
      by_state false = schedule_sleep-Timed (ensure_metadata w c) c ms (ensure-Timed timed)

  timers-unpark_on :
      (o : Option Ref)
      → ((leave_channel (dequeue w c) c o).timers ≡ without (λ t. t.sleeper) c w.timers)
        × ((leave_channel (dequeue w c) c o).counter ≡ w.counter)
  timers-unpark_on (some (Ref.channel h)) = (refl, refl)
  timers-unpark_on (some (Ref.task t)) = (refl, refl)
  timers-unpark_on none = (refl, refl)

  unpark-Timed : Timed w → Timed (unpark w c)
  unfolding unpark
  unpark-Timed timed =
      let k = timers-unpark_on (w.coroutines c).blocked_on in
      kept-Timed w timed (unpark w c) (λ t. not (t.sleeper == c)) (k.0 ∙ without-kept c w.timers)
        k.1

-- The heap of timers keeps its order, and the counter stays ahead of the numbers in it, whatever the
-- scheduler does with timers: it puts a coroutine to sleep, delays one, wakes those whose time has
-- come, and takes one that is cancelled out.
pub timers-Timed :
    {V E : Type 0} (w : World V E) (c : ℕ) (ms : ℤ)
    → Timed w
    → Timed (schedule_sleep w c ms)
      × Timed (schedule_delay w c ms)
      × Timed (drain_timers w)
      × Timed (unpark w c)
timers-Timed w c ms timed = (
  schedule_sleep-Timed w c ms timed,
  schedule_delay-Timed w c ms timed,
  drain_timers-Timed w timed,
  unpark-Timed w c timed,
)
