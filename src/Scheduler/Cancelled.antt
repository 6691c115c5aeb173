-- ===== src/Scheduler/Cancelled.antt =====
-- What `cancel` leaves behind, and what a later `cancel` or `wait` answers.
use nodus.Prelude.{ℕ, ◌≡◌, ◌≢◌, refl, ap, ◌∙◌, true, false, none, some, List, [], arith}
use nodus.Tasks.{World, State, created, running, suspended, finished, contains, update}
use nodus.Tasks.Laws.{update_self}
use nodus.Waiting.{unpark, release_waiters, mark_completed}
use nodus.Waiting.Informs.{core-release, core-mark_completed}
use nodus.Waiting.Release.{release_waiters-wakes, contains-mark_completed, completed_ids-release}
use nodus.Scheduler.{unwind_cancelled_coroutine}
use nodus.Scheduler.Turn.{Host}
use nodus.Scheduler.Join.{finish_task, stop_task, cancel, raised, wait}

-- The task `c`, numbered `i`, is over: it failed with `e`, is completed, and nobody waits for it.
pub record Closed {V E : Type 0} (w : World V E) (c i : ℕ) (e : E) : Type 0 where
  pub numbered : (w.coroutines c).id ≡ some i
  pub over : (w.coroutines c).state ≡ finished
  pub failed_with : (w.coroutines c).cancelled_error ≡ some e
  pub completed : contains w.completed_ids i ≡ true
  pub awaited : w.waiters i ≡ []

-- Running the `finally` blocks of a task leaves it its number.
abbrev pub KeepsIds : {V E : Type 0} → (World V E → ℕ → E → World V E) → Type 0
KeepsIds {V} {E} run_finally =
    (w : World V E) (c : ℕ) (e : E) → ((run_finally w c e).coroutines c).id ≡ (w.coroutines c).id

module _ {V E : Type 0} (c i : ℕ) (e : E) where
  -- a completed task whose waiters are released
  settled-Closed :
      (w : World V E)
      → (w.coroutines c).id ≡ some i
      → (w.coroutines c).state ≡ finished
      → (w.coroutines c).cancelled_error ≡ some e
      → contains w.completed_ids i ≡ true
      → Closed (release_waiters w c) c i e
  settled-Closed w n o f k =
      let same = core-release w c c in
      record {
        numbered = ap (λ x. x.0) same ∙ n;
        over = ap (λ x. x.1) same ∙ o;
        failed_with = ap (λ x. x.3) same ∙ f;
        completed = ap (λ xs. contains xs i) (completed_ids-release w c i) ∙ k;
        awaited = (release_waiters-wakes w c i n).0;
      }

  -- the task is completed first; the set of the sleeping tasks may change in between
  completed-Closed :
      (w : World V E) (ids : List ℕ)
      → (w.coroutines c).id ≡ some i
      → (w.coroutines c).state ≡ finished
      → (w.coroutines c).cancelled_error ≡ some e
      → Closed (release_waiters (record (mark_completed w c) { sleeping_tasks = ids }) c) c i e
  completed-Closed w ids n o f =
      let same = core-mark_completed w c c in
      settled-Closed (record (mark_completed w c) { sleeping_tasks = ids }) (ap (λ x. x.0) same ∙ n)
        (ap (λ x. x.1) same ∙ o) (ap (λ x. x.3) same ∙ f) (contains-mark_completed w c i n)

module _ {V E : Type 0} (run_finally : World V E → ℕ → E → World V E) (e : E)
    (keeps : KeepsIds run_finally) (c i : ℕ) where
  unwound-id :
      (w : World V E)
      → (w.coroutines c).id ≡ some i
      → ((unwind_cancelled_coroutine run_finally w c e).coroutines c).id ≡ some i
  unfolding unwind_cancelled_coroutine
  unwound-id w n =
      let w₁ = record w {
        coroutines = update w.coroutines c (record (w.coroutines c) { cancelling = some e });
      } in
      ap (λ x. x.id) (update_self (run_finally w₁ c e).coroutines c _)
      ∙ keeps w₁ c e
      ∙ ap (λ x. x.id) (update_self w.coroutines c _)
      ∙ n

  -- the task is finished with the error, completed, and its waiters are released
  finished-Closed :
      (w : World V E) (ids : List ℕ)
      → (w.coroutines c).id ≡ some i
      → Closed
          (release_waiters
            (record (mark_completed (finish_task run_finally e w c) c) { sleeping_tasks = ids })
            c)
          c
          i
          e
  finished-Closed w ids n =
      let same = update_self w.coroutines c _ in
      completed-Closed c i e (finish_task run_finally e w c) ids (ap (λ x. x.id) same ∙ n)
        (ap (λ x. x.state) same) (ap (λ x. x.cancelled_error) same)

  entered-Closed :
      (w : World V E)
      → (w.coroutines c).id ≡ some i
      → Closed (stop_task run_finally e w c running) c i e
  entered-Closed w n =
      finished-Closed (unwind_cancelled_coroutine run_finally w c e) _ (unwound-id w n)

  stop-Closed :
      (w : World V E) (s : State)
      → (w.coroutines c).id ≡ some i
      → Closed (stop_task run_finally e w c s) c i e
  stop-Closed w created n =
      finished-Closed w (mark_completed (finish_task run_finally e w c) c).sleeping_tasks n
  stop-Closed w running n = entered-Closed w n
  stop-Closed w suspended n = entered-Closed w n
  stop-Closed w finished n = entered-Closed w n

  id-unpark : (w : World V E) → ((unpark w c).coroutines c).id ≡ (w.coroutines c).id
  unfolding unpark
  id-unpark w = ground arith

  cancel_live :
      (w : World V E)
      → (w.coroutines c).id ≡ some i
      → (w.coroutines c).state ≢ finished
      → (w.coroutines c).cancelling ≡ none
      → cancel run_finally e w c
        ≡ (stop_task run_finally e (unpark w c) c (w.coroutines c).state, true)
  unfolding cancel
  cancel_live w n live once = ground arith

  -- Cancelling a task that was spawned, has not finished and is not being cancelled answers true, and
  -- afterwards the task is finished with the cancellation as its error and completed, and nobody
  -- waits for it any more, whatever its `finally` blocks do, as long as they leave it its number.
  pub cancel-Closed :
      (w : World V E)
      → (w.coroutines c).id ≡ some i
      → (w.coroutines c).state ≢ finished
      → (w.coroutines c).cancelling ≡ none
      → Closed (cancel run_finally e w c).0 c i e × ((cancel run_finally e w c).1 ≡ true)
  cancel-Closed w n live once =
      rw (cancel_live w n live once)
        (stop-Closed (unpark w c) (w.coroutines c).state (id-unpark w ∙ n), refl)

module _ {V E : Type 0} (w : World V E) (c i : ℕ) (e : E) (closed : Closed w c i e) where
  cancel_closed :
      (run_finally : World V E → ℕ → E → World V E) (e₁ : E)
      → cancel run_finally e₁ w c ≡ (w, false)
  unfolding cancel
  cancel_closed run_finally e₁ = rw closed.over refl

  wait_closed : (host : Host V E) (n : ℕ) → wait host n w c ≡ (w, raised e)
  unfolding wait
  wait_closed host n = rw (closed.numbered, closed.over, closed.failed_with) refl

-- A task that was cancelled stays so: a second `cancel` answers false, a `wait` raises the
-- cancellation at once, whether it is called inside a coroutine or at top level, and neither
-- changes anything. The `finally` blocks of the task leave it its number.
pub cancelled_stays :
    {V E : Type 0} (run_finally : World V E → ℕ → E → World V E) (e : E)
    → KeepsIds run_finally
    → (w : World V E) (c i : ℕ) → (w.coroutines c).id ≡ some i
    → (w.coroutines c).state ≢ finished
    → (w.coroutines c).cancelling ≡ none
    → (host : Host V E) (n : ℕ)
    → let w₁ = (cancel run_finally e w c).0 in
      (cancel run_finally e w₁ c ≡ (w₁, false)) × (wait host n w₁ c ≡ (w₁, raised e))
cancelled_stays run_finally e keeps w c i numbered live once host n =
    let w₁ = (cancel run_finally e w c).0 in
    let closed = (cancel-Closed run_finally e keeps c i w numbered live once).0 in
    (cancel_closed w₁ c i e closed run_finally e, wait_closed w₁ c i e closed host n)
