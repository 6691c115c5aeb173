-- ===== src/Scheduler/Joining.antt =====
-- A `wait` inside a coroutine, from the suspension to the delivery.
use mathlib.Core.Path.{subst}
use nodus.Prelude.{
  ℕ, ◌≡◌, ◌≢◌, refl, sym, ap, ◌∙◌, Bool, true, false, Option, none, some, List, [], ◌∷◌, ◌++◌,
  arith, if◌then◌else◌, ◌||◌,
}
use nodus.Tasks.{World, Coroutine, suspended, finished, contains, set_coroutine}
use nodus.Tasks.Laws.{update_self, contains-append}
use nodus.Channels.{same_task}
use nodus.Waiting.{park_waiter, mark_completed, first_error, informed}
use nodus.Waiting.Informs.{release_waiters-informs}
use nodus.Waiting.Release.{sleepers, release_waiters-wakes, completed_now, noted}
use nodus.Scheduler.Turn.{Host}
use nodus.Scheduler.Join.{parked, park_on, wait}

-- The outcome of a task, as a coroutine that waits with the stack `s` is handed it: an error to be
-- raised, or a result on top of the stack.
abbrev pub Handed : {V E : Type 0} → Option E → V → List V → Coroutine V E → Type 0
Handed (some e) v s x = x.pending_wait_error ≡ some e
Handed none v s x = x.stack ≡ v ∷ s

informed-Handed :
    {V E : Type 0} (o : Option E) (v nil : V) (s : List V) (x : Coroutine V E)
    → x.stack ≡ nil ∷ s
    → Handed o v s (informed o v x)
informed-Handed (some e) v nil s x h = refl
informed-Handed none v nil s x h = rw h refl

informed-unblocked :
    {V E : Type 0} (o : Option E) (v : V) (x : Coroutine V E) → (informed o v x).blocked_on ≡ none
informed-unblocked (some e) v x = refl
informed-unblocked none v x = refl

contains-sleepers :
    {V E : Type 0} (cs : ℕ → Coroutine V E) (xs : List ℕ) (d : ℕ)
    → (cs d).state ≡ suspended
    → contains xs d ≡ true
    → contains (sleepers cs xs) d ≡ true
unfolding contains
contains-sleepers cs [] d h k = k
contains-sleepers cs (x ∷ xs) d h k = ground (arith, contains-sleepers cs xs d h)

or_true : (b : Bool) → (b || true) ≡ true
or_true true = refl
or_true false = refl

contains-last : (xs : List ℕ) (d : ℕ) → contains (xs ++ d ∷ []) d ≡ true
unfolding contains
contains-last [] d = ground arith
contains-last (x ∷ xs) d = ground (arith, contains-last xs d)

module _ {V E : Type 0} (w : World V E) (c i d : ℕ) where
  -- the completion of the task for which `d` waits
  completion :
      (nil : V) (s : List V)
      → (w.coroutines d).state ≡ suspended
      → (w.coroutines d).stack ≡ nil ∷ s
      → contains (w.waiters i) d ≡ true
      → (w.coroutines c).id ≡ some i
      → contains w.completed_ids i ≡ false
      → Handed
          (first_error (w.coroutines c).cancelled_error (w.coroutines c).failure)
          (w.coroutines c).last_result
          s
          ((mark_completed w c).coroutines d)
        × (((mark_completed w c).coroutines d).blocked_on ≡ none)
        × (contains (mark_completed w c).ready_queue d ≡ true)
  completion nil s h stack waits numbered new =
      let o = first_error (w.coroutines c).cancelled_error (w.coroutines c).failure in
      let v = (w.coroutines c).last_result in
      let x = w.coroutines d in
      let told =
        release_waiters-informs (noted w c i) c i d numbered
        ∙ ap (λ b. if b then informed o v x else x) waits in
      rw (completed_now w c i numbered new) (
        subst (Handed o v s) (sym told) (informed-Handed o v nil s x stack),
        ap (λ y. y.blocked_on) told ∙ informed-unblocked o v x,
        ap (λ ys. contains ys d) (release_waiters-wakes (noted w c i) c i numbered).1
            ∙ contains-append w.ready_queue (sleepers w.coroutines (w.waiters i)) d
            ∙ ap (λ b. contains w.ready_queue d || b)
                (contains-sleepers w.coroutines (w.waiters i) d h waits)
            ∙ or_true (contains w.ready_queue d),
      )

module _ {V E : Type 0} (host : Host V E) (n : ℕ) (w : World V E) (c i d : ℕ) where
  -- the world in which a `wait` that suspends is parked
  abbrev marked : World V E
  marked = set_coroutine w c (record (w.coroutines c) { waited_on = true })

  wait_parks :
      (w.coroutines c).id ≡ some i
      → (w.coroutines c).state ≢ finished
      → same_task w.current_coroutine w.current_task ≡ some d
      → d ≢ c
      → wait host n w c ≡ (park_on host.nil marked d c i, parked)
  unfolding wait
  wait_parks numbered live inside other = ground arith

  park-Waits :
      let w₁ = park_on host.nil marked d c i in
      ((w₁.coroutines d).state ≡ suspended)
      × ((w₁.coroutines d).stack ≡ host.nil ∷ w.vm_stack)
      × (contains (w₁.waiters i) d ≡ true)
  unfolding park_waiter
  park-Waits = (
    ground arith,
    ground arith,
    ap (λ xs. contains xs d) (update_self w.waiters i (w.waiters i ++ d ∷ []))
        ∙ contains-last (w.waiters i) d,
  )

-- A `wait` inside the coroutine `d` for another task that has not finished suspends `d`, among the
-- waiters of the task. In any later world in which `d` still waits as it was left, the completion of
-- the task hands `d` what the task came to, its error if it has one and else its result on top of
-- the stack that `d` had, and puts `d`, no longer blocked, into the ready queue.
pub wait-Handed :
    {V E : Type 0} (host : Host V E) (n : ℕ) (w : World V E) (c i d : ℕ)
    → (w.coroutines c).id ≡ some i
    → (w.coroutines c).state ≢ finished
    → same_task w.current_coroutine w.current_task ≡ some d
    → d ≢ c
    → (w₂ : World V E) → w₂.coroutines d ≡ (wait host n w c).0.coroutines d
    → contains (w₂.waiters i) d ≡ true
    → (w₂.coroutines c).id ≡ some i
    → contains w₂.completed_ids i ≡ false
    → let x = w₂.coroutines c in
      let w₃ = mark_completed w₂ c in
      ((wait host n w c).1 ≡ parked)
      × (contains ((wait host n w c).0.waiters i) d ≡ true)
      × Handed (first_error x.cancelled_error x.failure) x.last_result w.vm_stack (w₃.coroutines d)
      × ((w₃.coroutines d).blocked_on ≡ none)
      × (contains w₃.ready_queue d ≡ true)
wait-Handed host n w c i d numbered live inside other w₂ same waits numbered₂ new =
    let parks = wait_parks host n w c i d numbered live inside other in
    let waiting = park-Waits host n w c i d in
    let as_left = same ∙ ap (λ r. r.0.coroutines d) parks in
    let handed =
      completion w₂ c i d host.nil w.vm_stack (ap (λ x. x.state) as_left ∙ waiting.0)
        (ap (λ x. x.stack) as_left ∙ waiting.1) waits numbered₂ new in
    (
      ap (λ r. r.1) parks,
      ap (λ r. contains (r.0.waiters i) d) parks ∙ waiting.2,
      handed.0,
      handed.1,
      handed.2,
    )
