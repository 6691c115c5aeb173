-- ===== src/Scheduler.antt =====
-- src/nodus/runtime/scheduler.py: `_schedule_sleep`, `schedule_delay`, `_drain_timers` and
-- `_drain_io_channels`, and `unwind_cancelled_coroutine` of src/nodus/vm/vm.py. The heap `timers` is a list in the order of its tuples, so its first entry
-- is the head of the list; a sequence number occurs once, so no two coroutines are compared. Times
-- are whole milliseconds. `nil` is Python's None.
pub mod Join
pub mod Joining
pub mod Cancelled
pub mod Builtins
pub mod Turn
pub mod Waited
pub mod Heap
pub mod Timers
pub mod Queue
pub mod Liveness
pub mod Served
pub mod Places
pub mod Timeout
pub mod Tests
use nodus.Prelude.{
  ℕ, ◌+◌, Bool, true, false, Option, none, some, List, [], ◌∷◌, ◌++◌, ltb, leb, ◌==◌, if◌then◌else◌,
  ◌||◌, ◌&&◌,
}
use nodus.Tasks.{
  World, Coroutine, Timer, finished, is_finished, is_suspended, contains, discard, add, set_channel,
  set_coroutine, delivered,
}
use nodus.Channels.{is_empty}
use nodus.Waiting.{ensure_metadata, awake, remove}

-- a number of milliseconds, `negsuc n` for - (n + 1)
pub data ℤ : Type 0 where
  pos negsuc : ℕ → ℤ

-- max(0, ms)
abbrev pub clamp : ℤ → ℕ
clamp (pos n) = n
clamp (negsuc n) = 0

-- `<` of two entries of the heap
abbrev pub before : Timer → Timer → Bool
before s t = ltb s.wake t.wake || ((s.wake == t.wake) && ltb s.seq t.seq)

-- heapq.heappush
unfoldable pub heappush : Timer → List Timer → List Timer
heappush t [] = t ∷ []
heappush t (s ∷ ts) = let rest = heappush t ts in if before t s then t ∷ s ∷ ts else s ∷ rest

-- `if c.id is not None: sleeping_tasks.add(c.id)`
abbrev pub asleep : Option ℕ → List ℕ → List ℕ
asleep none ids = ids
asleep (some i) ids = add i ids

module _ {V E : Type 0} where
  -- Scheduler._schedule_sleep
  unfoldable pub schedule_sleep : World V E → ℕ → ℤ → World V E
  schedule_sleep w c ms =
      let t : Timer = record { wake = w.now_ms + clamp ms; seq = w.counter + 1; sleeper = c } in
      record w {
        counter = w.counter + 1;
        timers = heappush t w.timers;
        sleeping_tasks = asleep (w.coroutines c).id w.sleeping_tasks;
      }

  -- Scheduler.schedule_delay
  unfoldable pub schedule_delay : World V E → ℕ → ℤ → World V E
  schedule_delay w c ms =
      if is_finished (w.coroutines c).state then w else schedule_sleep (ensure_metadata w c) c ms

  -- a coroutine whose time has come
  unfoldable pub wake_timer : World V E → ℕ → World V E
  wake_timer w c = if is_finished (w.coroutines c).state then w else record w {
    sleeping_tasks = awake (w.coroutines c).id w.sleeping_tasks;
    ready_queue = w.ready_queue ++ c ∷ [];
  }

  -- the loop of `_drain_timers` over the heap
  unfoldable pub drain_loop : ℕ → World V E → List Timer → World V E
  drain_loop now w [] = record w { timers = [] }
  drain_loop now w (t ∷ ts) =
      let next = drain_loop now (wake_timer w t.sleeper) ts in
      if leb t.wake now then next else record w { timers = t ∷ ts }

  -- Scheduler._drain_timers
  unfoldable pub drain_timers : World V E → World V E
  drain_timers w = drain_loop w.now_ms w w.timers

module _ {V E : Type 0} where
  -- The receiver `r` is handed `v`, if it still waits.
  abbrev pub hand : V → World V E → ℕ → World V E
  hand v w r =
      let w₁ = set_coroutine w r (delivered v (w.coroutines r)) in
      if is_suspended (w.coroutines r).state
      then record w₁ { ready_queue = w₁.ready_queue ++ r ∷ [] }
      else w

  -- the loop of `_drain_io_channels` that pairs values with receivers
  unfoldable pub deliver_io : World V E → ℕ → List V → List ℕ → World V E
  deliver_io w h (v ∷ vs) (r ∷ rs) =
      let ch = record (w.channels h) { queue = vs; waiting_receivers = rs } in
      deliver_io (hand v (set_channel w h ch) r) h vs rs
  deliver_io w h vs rs = w

  -- its loop over the receivers of a closed channel
  unfoldable pub release_io : V → World V E → ℕ → List ℕ → World V E
  release_io nil w h [] = w
  release_io nil w h (r ∷ rs) =
      let ch = record (w.channels h) { waiting_receivers = rs } in
      release_io nil (hand nil (set_channel w h ch) r) h rs

  abbrev pub close_io : V → World V E → ℕ → World V E
  close_io nil w h =
      let w₁ = release_io nil w h (w.channels h).waiting_receivers in
      record w₁ {
        io_channels = remove h w₁.io_channels;
        recv_channels = discard h w₁.recv_channels;
      }

  unfoldable pub drain_io : V → World V E → ℕ → World V E
  drain_io nil w h =
      let w₁ = deliver_io w h (w.channels h).queue (w.channels h).waiting_receivers in
      if (w₁.channels h).closed
      then close_io nil w₁ h
      else if is_empty (w₁.channels h).waiting_receivers
      then record w₁ { recv_channels = discard h w₁.recv_channels }
      else w₁

  unfoldable pub drain_ios : V → World V E → List ℕ → World V E
  drain_ios nil w [] = w
  drain_ios nil w (h ∷ hs) = drain_ios nil (drain_io nil w h) hs

  -- Scheduler._drain_io_channels
  abbrev pub drain_io_channels : V → World V E → World V E
  drain_io_channels nil w = drain_ios nil w w.io_channels

  -- VM.unwind_cancelled_coroutine (vm/vm.py): `run_finally` loads the coroutine and executes what
  -- `handle_exception` finds pending. Its errors are dropped by every caller.
  unfoldable pub unwind_cancelled_coroutine :
      (World V E → ℕ → E → World V E) → World V E → ℕ → E → World V E
  unwind_cancelled_coroutine run_finally w c e =
      let w₁ = set_coroutine w c (record (w.coroutines c) { cancelling = some e }) in
      let w₂ = run_finally w₁ c e in
      set_coroutine w₂ c (record (w₂.coroutines c) { cancelling = none; state = finished })
