-- ===== src/Scheduler/Heap.antt =====
-- The order of the heap of timers, and that going to sleep keeps it.
use nodus.Prelude.{
  ℕ, ◌+◌, ◌≤◌, ◌<◌, ◌≡◌, ◌⊎◌, refl, Bool, true, false, List, [], ◌∷◌, arith, All, if◌then◌else◌,
}
use nodus.Tasks.{World, Timer}
use nodus.Scheduler.{ℤ, clamp, before, heappush, schedule_sleep}

-- Timers are served by their time, and at the same time by their number.
abbrev pub Before : Timer → Timer → Type 0
Before s t = (s.wake < t.wake) ⊎ ((s.wake ≡ t.wake) × (s.seq < t.seq))

abbrev pub Ordered : List Timer → Type 0
Ordered [] = Unit
Ordered (t ∷ ts) = All (Before t) ts × Ordered ts

-- The numbers of the timers were given out by the counter.
abbrev pub Counted : ℕ → List Timer → Type 0
Counted n ts = All (λ t. t.seq ≤ n) ts

before-Before : (s t : Timer) → before s t ≡ true → Before s t
before-Before s t h = ground arith

All-Before : (s t : Timer) (ts : List Timer) → Before s t → All (Before t) ts → All (Before s) ts
All-Before s t [] h a = tt
All-Before s t (u ∷ ts) h a = (ground arith, All-Before s t ts h a.1)

All-heappush :
    (P : Timer → Type 0) (t : Timer) (ts : List Timer) → P t → All P ts → All P (heappush t ts)
unfolding heappush
All-heappush P t [] h a = (h, tt)
All-heappush P t (s ∷ ts) h a = by_test (before t s) (All-heappush P t ts h a.1)
  where
    by_test :
        (b : Bool) → All P (heappush t ts) → All P (if b then t ∷ s ∷ ts else s ∷ heappush t ts)
    by_test true rest = (h, a)
    by_test false rest = (a.0, rest)

after_newer : (s t : Timer) → before t s ≡ false → s.seq < t.seq → Before s t
after_newer s t h lt = ground arith

heappush-Ordered :
    (t : Timer) (ts : List Timer)
    → All (λ s. s.seq < t.seq) ts
    → Ordered ts
    → Ordered (heappush t ts)
unfolding heappush
heappush-Ordered t [] newer o = (tt, tt)
heappush-Ordered t (s ∷ ts) newer o = by_test (before t s) refl (heappush-Ordered t ts newer.1 o.1)
  where
    by_test :
        (b : Bool)
        → before t s ≡ b
        → Ordered (heappush t ts)
        → Ordered (if b then t ∷ s ∷ ts else s ∷ heappush t ts)
    by_test true e rest = ((before-Before t s e, All-Before t s ts (before-Before t s e) o.0), o)
    by_test false e rest = (All-heappush (Before s) t ts (after_newer s t e newer.0) o.0, rest)

All-weaken :
    {P Q : Timer → Type 0} → ((t : Timer) → P t → Q t) → (ts : List Timer) → All P ts → All Q ts
All-weaken f [] a = tt
All-weaken f (t ∷ ts) a = (f t a.0, All-weaken f ts a.1)

-- The heap is in order and holds no number that is still to be given out.
abbrev pub Timed : {V E : Type 0} → World V E → Type 0
Timed w = Ordered w.timers × Counted w.counter w.timers

module _ {V E : Type 0} (w : World V E) (c : ℕ) where
  pub schedule_sleep-Timed : (ms : ℤ) → Timed w → Timed (schedule_sleep w c ms)
  unfolding schedule_sleep
  schedule_sleep-Timed ms (o, n) =
      let t : Timer = record { wake = w.now_ms + clamp ms; seq = w.counter + 1; sleeper = c } in
      (
        heappush-Ordered t w.timers (All-weaken (λ s le. omega arith) w.timers n) o,
        All-heappush (λ s. s.seq ≤ w.counter + 1) t w.timers (omega arith)
            (All-weaken (λ s le. omega arith) w.timers n),
      )
