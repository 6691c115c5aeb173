-- ===== src/Scheduler/Places.antt =====
-- That `spawn` and `cancel` take no coroutine's place in the ready queue.
use nodus.Prelude.{
  ℕ, zero, suc, ◌≡◌, ◌≢◌, refl, ap, Bool, true, false, not, Option, none, some, List, [], ◌∷◌, ◌++◌,
  ◌==◌, arith, if◌then◌else◌, ==_iff, ◌⊎◌, inl, inr,
}
use nodus.Tasks.{
  World, State, created, running, suspended, finished, is_finished, Ref, set_coroutine,
}
use nodus.Waiting.{
  spawn, ensure_metadata, unpark, remove, leave_channel, dequeue, mark_completed, release_waiters,
}
use nodus.Scheduler.{unwind_cancelled_coroutine}
use nodus.Scheduler.Queue.{Grows-release, Grows-mark_completed}
use nodus.Scheduler.Liveness.{soon, Due, Grows-Due, Due-set, Due-finish}
use nodus.Scheduler.Turn.{is_none}
use nodus.Scheduler.Join.{finish_task, stop_task, cancel_numbered, cancel}

soon_later : (n d : ℕ) (xs : List ℕ) → soon n d xs ≡ true → soon (suc n) d xs ≡ true
soon_later n d [] h = h
soon_later zero d (x ∷ xs) h = ground arith
soon_later (suc n) d (x ∷ xs) h = ground (arith, soon_later n d xs)

soon-remove : (n d c : ℕ) (xs : List ℕ) → c ≢ d → soon n d xs ≡ true → soon n d (remove c xs) ≡ true
unfolding remove
soon-remove n d c [] ne h = h
soon-remove zero d c (x ∷ xs) ne h = ground arith
soon-remove (suc n) d c (x ∷ xs) ne h = ground (arith, soon-remove n d c xs ne, soon_later n d xs)

module _ {V E : Type 0} (n d : ℕ) where
  state-ensure :
      (w : World V E) (c y : ℕ)
      → ((ensure_metadata w c).coroutines y).state ≡ (w.coroutines y).state
  unfolding ensure_metadata
  state-ensure w c y = ground arith

  ready-ensure : (w : World V E) (c : ℕ) → (ensure_metadata w c).ready_queue ≡ w.ready_queue
  unfolding ensure_metadata
  ready-ensure w c = ground arith

  spawn-Due : (w : World V E) (c : ℕ) → Due n d w → Due n d (spawn w c)
  unfolding spawn
  spawn-Due w c h = by_state (is_finished (w.coroutines c).state) refl
    where
      by_state : (b : Bool) → is_finished (w.coroutines c).state ≡ b → Due n d (spawn w c)
      by_state true e = rw e h
      by_state false e = rw e (
          Grows-Due n d w _
            (record {
              more = c ∷ [];
              queue = ap (λ q. q ++ c ∷ []) (ready-ensure w c);
              states = state-ensure w c;
            })
            h)

module _ {V E : Type 0} (n d : ℕ) where
  ready-unpark_on :
      (w : World V E) (c : ℕ) (o : Option Ref)
      → (leave_channel (dequeue w c) c o).ready_queue ≡ remove c w.ready_queue
  ready-unpark_on w c (some (Ref.channel h)) = refl
  ready-unpark_on w c (some (Ref.task t)) = refl
  ready-unpark_on w c none = refl

  unpark-Due : (w : World V E) (c : ℕ) → c ≢ d → Due n d w → Due n d (unpark w c)
  unfolding unpark
  unpark-Due w c ne h = record {
    holds = ground (
      arith,
      h.holds,
      ready-unpark_on w c (w.coroutines c).blocked_on,
      soon-remove n d c w.ready_queue ne,
    );
  }

module _ {V E : Type 0} (run_finally : World V E → ℕ → E → World V E) (e : E) (n d c : ℕ) where
  -- `d` keeps its place, or is the coroutine `c` itself
  abbrev Safe : World V E → Type 0
  Safe w = (c ≡ d) ⊎ Due n d w

  finish-Due : (w : World V E) → Safe w → Due n d (finish_task run_finally e w c)
  finish-Due w (inl same) = record { holds = ground arith }
  finish-Due w (inr h) = Due-finish n d w c _ refl h

  released-Due :
      (w : World V E) (ids : List ℕ)
      → Due n d w
      → Due n d (release_waiters (record (mark_completed w c) { sleeping_tasks = ids }) c)
  released-Due w ids h =
      Grows-Due n d _ _ (Grows-release (record (mark_completed w c) { sleeping_tasks = ids }) c)
        (record { holds = (Grows-Due n d w _ (Grows-mark_completed w c) h).holds })

  unpark-Safe : (w : World V E) → Due n d w → Safe (unpark w c)
  unpark-Safe w h = by_test (c == d) refl
    where
      by_test : (b : Bool) → (c == d) ≡ b → Safe (unpark w c)
      by_test true k = inl ((==_iff c d).0 k)
      by_test false k = inr (unpark-Due n d w c (λ (m : c ≡ d). ground arith) h)

module _ {V E : Type 0} (run_finally : World V E → ℕ → E → World V E) (e : E) (n d c : ℕ)
    (fair : (w : World V E) → Due n d w → Due n d (run_finally w c e)) where
  unwind-Safe :
      (w : World V E)
      → Safe run_finally e n d c w
      → Safe run_finally e n d c (unwind_cancelled_coroutine run_finally w c e)
  unfolding unwind_cancelled_coroutine
  unwind-Safe w (inl same) = inl same
  unwind-Safe w (inr h) =
      let x = record (w.coroutines c) { cancelling = some e } in
      inr (Due-finish n d _ c _ refl (fair (set_coroutine w c x) (Due-set n d w c x refl h)))

  stop-Due :
      (w : World V E) (s : State)
      → Safe run_finally e n d c w
      → Due n d (stop_task run_finally e w c s)
  stop-Due w created h =
      let w₁ = finish_task run_finally e w c in
      released-Due run_finally e n d c w₁ (mark_completed w₁ c).sleeping_tasks
        (finish-Due run_finally e n d c w h)
  stop-Due w running h =
      let w₁ = unwind_cancelled_coroutine run_finally w c e in
      released-Due run_finally e n d c (finish_task run_finally e w₁ c) _
        (finish-Due run_finally e n d c w₁ (unwind-Safe w h))
  stop-Due w suspended h =
      let w₁ = unwind_cancelled_coroutine run_finally w c e in
      released-Due run_finally e n d c (finish_task run_finally e w₁ c) _
        (finish-Due run_finally e n d c w₁ (unwind-Safe w h))
  stop-Due w finished h =
      let w₁ = unwind_cancelled_coroutine run_finally w c e in
      released-Due run_finally e n d c (finish_task run_finally e w₁ c) _
        (finish-Due run_finally e n d c w₁ (unwind-Safe w h))

  numbered-Due :
      (w : World V E) (o : Option ℕ) → Due n d w → Due n d (cancel_numbered run_finally e w c o).0
  numbered-Due w none h = h
  numbered-Due w (some i) h = stop-Due (unpark w c) _ (unpark-Safe run_finally e n d c w h)

  cancel-Due : (w : World V E) → Due n d w → Due n d (cancel run_finally e w c).0
  unfolding cancel
  cancel-Due w h =
      by_tests (is_finished (w.coroutines c).state) (not (is_none (w.coroutines c).cancelling))
    where
      by_tests :
          (a b : Bool)
          → Due n d
              (if a
                then (w, false)
                else if b
                then (w, false)
                else cancel_numbered run_finally e w c (w.coroutines c).id).0
      by_tests true b = h
      by_tests false true = h
      by_tests false false = numbered-Due w (w.coroutines c).id h

-- A program that spawns tasks and cancels them takes nobody's place in the ready queue: a coroutine
-- with at most `n` others ahead of it keeps at most `n` ahead of it, unless it is finished, also one
-- that is cancelled itself. The `finally` blocks of the cancelled task keep places, too.
pub places-Due :
    {V E : Type 0} (run_finally : World V E → ℕ → E → World V E) (e : E) (n d c : ℕ)
    → ((w : World V E) → Due n d w → Due n d (run_finally w c e))
    → (w : World V E) → Due n d w
    → Due n d (spawn w c) × Due n d (cancel run_finally e w c).0
places-Due run_finally e n d c fair w h =
    (spawn-Due n d w c h, cancel-Due run_finally e n d c fair w h)
