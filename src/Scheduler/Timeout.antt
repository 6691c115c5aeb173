-- ===== src/Scheduler/Timeout.antt =====
-- What the waiters of a task learn when it fails, and when it times out.
use nodus.Prelude.{
  ℕ, ◌≡◌, ◌⊎◌, inl, inr, ◌≢◌, refl, sym, ap, ◌∙◌, Bool, true, false, Option, none, some, List, [],
  ◌∷◌, ◌++◌, arith, if◌then◌else◌, ◌&&◌,
}
use nodus.Tasks.{World, Coroutine, contains, update}
use nodus.Tasks.Laws.{update_self, update_ne}
use nodus.Waiting.{
  release_waiter, release_loop, release_by, release_waiters, mark_completed, informed, first_error,
}
use nodus.Waiting.Informs.{release_waiters-informs, core-mark_completed, core-release}
use nodus.Waiting.Release.{completed_now, completed_before, noted, release_waiters-wakes}
use nodus.Scheduler.Waited.{Waited}
use nodus.Scheduler.Turn.{Host, is_none, any_finally, settle, expire, record_failure}

module _ {V E : Type 0} where
  errors-loop :
      (e : Option E) (v : V) (w : World V E) (xs : List ℕ)
      → (release_loop w e v xs).coroutine_errors ≡ w.coroutine_errors
  unfolding release_loop release_waiter
  errors-loop e v w [] = refl
  errors-loop e v w (x ∷ xs) = errors-loop e v (release_waiter w e v x) xs ∙ ground arith

  errors-by :
      (w : World V E) (t : Coroutine V E) (o : Option ℕ)
      → (release_by w t o).coroutine_errors ≡ w.coroutine_errors
  errors-by w t none = refl
  errors-by w t (some i) =
      errors-loop (first_error t.cancelled_error t.failure) t.last_result _ (w.waiters i)

  errors-release :
      (w : World V E) (t : ℕ) → (release_waiters w t).coroutine_errors ≡ w.coroutine_errors
  unfolding release_waiters
  errors-release w t = errors-by w (w.coroutines t) (w.coroutines t).id

  abbrev SameErrors : World V E → World V E → Type 0
  SameErrors w w₁ = w₁.coroutine_errors ≡ w.coroutine_errors

  errors-mark_completed :
      (w : World V E) (t : ℕ) → (mark_completed w t).coroutine_errors ≡ w.coroutine_errors
  unfolding mark_completed
  errors-mark_completed w t = by_id (w.coroutines t).id
    where
      by_test : (i : ℕ) (b : Bool) → SameErrors w (if b then w else release_waiters (noted w t i) t)
      by_test i true = refl
      by_test i false = errors-release (noted w t i) t

      by_id :
          (o : Option ℕ)
          → SameErrors w (elim o [
            | none ↦ w
            | some i ↦ if contains w.completed_ids i then w else release_waiters (noted w t i) t
          ])
      by_id none = refl
      by_id (some i) = by_test i (contains w.completed_ids i)

module _ {V E : Type 0} (host : Host V E) (w : World V E) (c i d : ℕ) where
  -- A timeout is not reported to those who wait for the task: the one that has no `finally` block
  -- to run is completed without an error, so a coroutine `d` that waits for it is handed the task's
  -- last result as if it had returned, with no error put into it, and the task is left in the state
  -- that it was in. The task has an id, is not completed, and has no error of its own.
  pub expire-silent :
      (w.coroutines c).id ≡ some i
      → (is_none (w.coroutines c).cancelling && any_finally (w.coroutines c).finally_ips) ≡ false
      → (w.coroutines c).cancelled_error ≡ none
      → (w.coroutines c).failure ≡ none
      → contains w.completed_ids i ≡ false
      → contains (w.waiters i) d ≡ true
      → (nil : V) (s : List V) → (w.coroutines d).stack ≡ nil ∷ s
      → let w₁ = expire host w c in
        ((w₁.coroutines d).stack ≡ (w.coroutines c).last_result ∷ s)
        × ((w₁.coroutines d).pending_wait_error ≡ (w.coroutines d).pending_wait_error)
        × ((w₁.coroutines c).state ≡ (w.coroutines c).state)
  unfolding expire settle
  expire-silent numbered idle uncancelled unfailed new waits nil s stack =
      let x = w.coroutines c in
      let told : (mark_completed w c).coroutines d ≡ informed none x.last_result (w.coroutines d) =
        ap (λ u. u.coroutines d) (completed_now w c i numbered new)
        ∙ release_waiters-informs (noted w c i) c i d numbered
        ∙ rw (waits, uncancelled, unfailed) refl in
      rw idle (
        ap (λ y. y.stack) told ∙ rw stack refl,
        ap (λ y. y.pending_wait_error) told,
        ap (λ y. y.1) (core-mark_completed w c c),
      )

module _ {V E : Type 0} (w : World V E) (c i d : ℕ) where
  -- the completion of a task for which nobody waits
  mark_idle :
      (w.coroutines c).id ≡ some i
      → w.waiters i ≡ []
      → (mark_completed w c).coroutines d ≡ w.coroutines d
  unfolding contains
  mark_idle numbered nobody = by_test (contains w.completed_ids i) refl
    where
      by_test :
          (b : Bool)
          → contains w.completed_ids i ≡ b
          → (mark_completed w c).coroutines d ≡ w.coroutines d
      by_test true k = ap (λ u. u.coroutines d) (completed_before w c i numbered k)
      by_test false k =
          ap (λ u. u.coroutines d) (completed_now w c i numbered k)
          ∙ release_waiters-informs (noted w c i) c i d numbered
          ∙ rw nobody refl

module _ {V E : Type 0} (w : World V E) (c i : ℕ) where
  mark_idle_waiters :
      (w.coroutines c).id ≡ some i → w.waiters i ≡ [] → (mark_completed w c).waiters i ≡ []
  mark_idle_waiters numbered nobody = by_test (contains w.completed_ids i) refl
    where
      by_test : (b : Bool) → contains w.completed_ids i ≡ b → (mark_completed w c).waiters i ≡ []
      by_test true k = ap (λ u. u.waiters i) (completed_before w c i numbered k) ∙ nobody
      by_test false k =
          ap (λ u. u.waiters i) (completed_now w c i numbered k)
          ∙ (release_waiters-wakes (noted w c i) c i numbered).0

module _ {V E : Type 0} (host : Host V E) (w : World V E) (c i d : ℕ) (e : E) where
  -- the world in which the failure is recorded, before the waiters are released
  abbrev failing : World V E
  failing = record w {
    coroutines = update w.coroutines c (record (w.coroutines c) { failure = some e });
    coroutine_errors =
        if (w.coroutines c).waited_on then w.coroutine_errors else w.coroutine_errors ++ e ∷ [];
  }

  errors-failure :
      (record_failure host w c e).coroutine_errors
      ≡ (if (w.coroutines c).waited_on then w.coroutine_errors else w.coroutine_errors ++ e ∷ [])
  unfolding record_failure settle
  errors-failure = errors-mark_completed (release_waiters failing c) c ∙ errors-release failing c

  id-failing : (w.coroutines c).id ≡ some i → (failing.coroutines c).id ≡ some i
  id-failing h = ap (λ x. x.id) (update_self w.coroutines c _) ∙ h

  told_failure :
      (w.coroutines c).id ≡ some i
      → (w.coroutines c).cancelled_error ≡ none
      → d ≢ c
      → (release_waiters failing c).coroutines d ≡ (
          if contains (w.waiters i) d
          then informed (some e) (w.coroutines c).last_result (w.coroutines d)
          else w.coroutines d)
  told_failure numbered uncancelled other =
      let x : Coroutine V E = record (w.coroutines c) { failure = some e } in
      let at_c = update_self w.coroutines c x in
      release_waiters-informs failing c i d (ap (λ y. y.id) at_c ∙ numbered)
      ∙ rw (at_c, update_ne w.coroutines c d x (λ h. other (sym h)), uncancelled) refl

  pending_failure :
      (w.coroutines c).id ≡ some i
      → (w.coroutines c).cancelled_error ≡ none
      → d ≢ c
      → ((release_waiters failing c).coroutines d).pending_wait_error
        ≡ (if contains (w.waiters i) d then some e else (w.coroutines d).pending_wait_error)
  pending_failure numbered uncancelled other =
      ap (λ y. y.pending_wait_error) (told_failure numbered uncancelled other) ∙ ground arith

  -- Either somebody called `wait` for the task and the errors are what they were, or nobody did, no
  -- coroutine is told, and the error stands behind the others.
  abbrev pub ListedOrWaited : World V E → Type 0
  ListedOrWaited w₁ =
      (((w.coroutines c).waited_on ≡ true) × (w₁.coroutine_errors ≡ w.coroutine_errors))
      ⊎ (((w.coroutines c).waited_on ≡ false)
          × (contains (w.waiters i) d ≡ false)
          × (w₁.coroutine_errors ≡ w.coroutine_errors ++ e ∷ []))

  listed_or_waited : Waited w c i → ListedOrWaited (record_failure host w c e)
  unfolding contains
  listed_or_waited waited = by_wait (w.coroutines c).waited_on refl waited
    where
      by_wait :
          (b : Bool)
          → (w.coroutines c).waited_on ≡ b
          → Waited w c i
          → ListedOrWaited (record_failure host w c e)
      by_wait true k h = inl (
        k,
        errors-failure ∙ ap (λ b. if b then w.coroutine_errors else w.coroutine_errors ++ e ∷ []) k,
      )
      by_wait false k (inl t) = absurd (ground arith)
      by_wait false k (inr nobody) = inr (
        k,
        ap (λ xs. contains xs d) nobody,
        errors-failure ∙ ap (λ b. if b then w.coroutine_errors else w.coroutine_errors ++ e ∷ []) k,
      )

  -- A task that fails is reported once: if somebody called `wait` for it the errors of the loop
  -- stay what they were, and otherwise its error joins them and no other coroutine `d` is told. A
  -- coroutine `d` other than the task that stands among its waiters has the error pending when it
  -- is resumed, any other one keeps what it had, and afterwards nobody waits for the task. The task
  -- has an id and was not cancelled, and somebody called `wait` for it or nobody stands among its
  -- waiters, as `wait` leaves it.
  pub record_failure-once :
      (w.coroutines c).id ≡ some i
      → (w.coroutines c).cancelled_error ≡ none
      → Waited w c i
      → d ≢ c
      → let w₁ = record_failure host w c e in
        ListedOrWaited w₁
        × ((w₁.coroutines d).pending_wait_error
            ≡ (if contains (w.waiters i) d then some e else (w.coroutines d).pending_wait_error))
        × (w₁.waiters i ≡ [])
  unfolding record_failure settle
  record_failure-once numbered uncancelled waited other =
      let w₁ = release_waiters failing c in
      let id₁ = id-failing numbered in
      let none_left = (release_waiters-wakes failing c i id₁).0 in
      let id₂ = ap (λ x. x.0) (core-release failing c c) ∙ id₁ in
      (
        listed_or_waited waited,
        ap (λ x. x.pending_wait_error) (mark_idle w₁ c i d id₂ none_left)
            ∙ pending_failure numbered uncancelled other,
        (mark_idle_waiters w₁ c i id₂ none_left),
      )
