-- ===== src/Waiting/Informs.antt =====
-- What the waiters of a task are handed when it settles.
use nodus.Prelude.{
  ℕ, ◌≡◌, refl, ap, ◌∙◌, Bool, true, false, Option, none, some, List, [], ◌∷◌, ◌==◌, arith,
  if◌then◌else◌, ◌||◌,
}
use nodus.Tasks.{World, State, Coroutine, contains, set_top, update}
use nodus.Waiting.{
  informed, release_waiter, release_loop, release_waiters, mark_completed, first_error,
}
use nodus.Waiting.Release.{noted, completed_before, completed_now, unnumbered}

set_top_twice : {V : Type 0} (v : V) (s : List V) → set_top v (set_top v s) ≡ set_top v s
set_top_twice v [] = refl
set_top_twice v (x ∷ s) = refl

informed_twice :
    {V E : Type 0} (e : Option E) (v : V) (x : Coroutine V E)
    → informed e v (informed e v x) ≡ informed e v x
informed_twice (some e) v x = refl
informed_twice none v x =
    ap (λ s. record x { blocked_on = none; blocked_reason = none; stack = s })
      (set_top_twice v x.stack)

module _ {V E : Type 0} (e : Option E) (v : V) where
  coroutines-waiter :
      (w : World V E) (x y : ℕ)
      → (release_waiter w e v x).coroutines y
        ≡ (if x == y then informed e v (w.coroutines y) else w.coroutines y)
  unfolding release_waiter
  coroutines-waiter w x y = ground arith

  informed_if :
      (w : World V E) (x y : ℕ) (b : Bool) (c : Coroutine V E)
      → c ≡ (if x == y then informed e v (w.coroutines y) else w.coroutines y)
      → (if b then informed e v c else c)
        ≡ (if (x == y) || b then informed e v (w.coroutines y) else w.coroutines y)
  informed_if w x y b c h = by_tests (x == y) b h
    where
      by_tests :
          (p q : Bool)
          → c ≡ (if p then informed e v (w.coroutines y) else w.coroutines y)
          → (if q then informed e v c else c)
            ≡ (if p || q then informed e v (w.coroutines y) else w.coroutines y)
      by_tests true true k = ap (informed e v) k ∙ informed_twice e v (w.coroutines y)
      by_tests true false k = k
      by_tests false true k = ap (informed e v) k
      by_tests false false k = k

  pub coroutines-loop :
      (w : World V E) (xs : List ℕ) (y : ℕ)
      → (release_loop w e v xs).coroutines y
        ≡ (if contains xs y then informed e v (w.coroutines y) else w.coroutines y)
  unfolding release_loop contains
  coroutines-loop w [] y = refl
  coroutines-loop w (x ∷ xs) y =
      coroutines-loop (release_waiter w e v x) xs y
      ∙ informed_if w x y (contains xs y) ((release_waiter w e v x).coroutines y)
          (coroutines-waiter w x y)

-- A task that settles hands its outcome to everybody who waits for it, and leaves every other
-- coroutine alone: a waiter is no longer blocked, and gets the task's error, if it has one, to be
-- raised when it is resumed, or else its result on top of its stack.
pub release_waiters-informs :
    {V E : Type 0} (w : World V E) (t i y : ℕ)
    → (w.coroutines t).id ≡ some i
    → (release_waiters w t).coroutines y ≡ (
        if contains (w.waiters i) y
        then informed
            (first_error (w.coroutines t).cancelled_error (w.coroutines t).failure)
            (w.coroutines t).last_result
            (w.coroutines y)
        else w.coroutines y)
unfolding release_waiters
release_waiters-informs w t i y h =
    let x = w.coroutines t in
    rw h (
      coroutines-loop (first_error x.cancelled_error x.failure) x.last_result
        (record w { waiters = update w.waiters i [] }) (w.waiters i) y)

-- What a waiter keeps when it is handed an outcome.
abbrev pub Core : Type 0 → Type 0 → Type 0
Core V E = Option ℕ × State × Option E × Option E × Option E × V

abbrev pub core : {V E : Type 0} → Coroutine V E → Core V E
core x = (x.id, x.state, x.cancelling, x.cancelled_error, x.failure, x.last_result)

core-informed :
    {V E : Type 0} (e : Option E) (v : V) (x : Coroutine V E) → core (informed e v x) ≡ core x
core-informed (some e) v x = refl
core-informed none v x = refl

core-if :
    {V E : Type 0} (e : Option E) (v : V) (x : Coroutine V E) (b : Bool)
    → core (if b then informed e v x else x) ≡ core x
core-if e v x true = core-informed e v x
core-if e v x false = refl

module _ {V E : Type 0} (w : World V E) (t : ℕ) where
  pub nobody_released : (w.coroutines t).id ≡ none → release_waiters w t ≡ w
  unfolding release_waiters
  nobody_released h = rw h refl

module _ {V E : Type 0} (w : World V E) (t y : ℕ) where
  pub core-release : core ((release_waiters w t).coroutines y) ≡ core (w.coroutines y)
  core-release = by_id (w.coroutines t).id refl
    where
      by_id :
          (o : Option ℕ)
          → (w.coroutines t).id ≡ o
          → core ((release_waiters w t).coroutines y) ≡ core (w.coroutines y)
      by_id none h = ap (λ u. core (u.coroutines y)) (nobody_released w t h)
      by_id (some i) h =
          ap core (release_waiters-informs w t i y h)
          ∙ core-if (first_error (w.coroutines t).cancelled_error (w.coroutines t).failure)
              (w.coroutines t).last_result (w.coroutines y) (contains (w.waiters i) y)

module _ {V E : Type 0} (w : World V E) (t y : ℕ) where
  core-mark_by :
      (i : ℕ) (b : Bool)
      → (w.coroutines t).id ≡ some i
      → contains w.completed_ids i ≡ b
      → core ((mark_completed w t).coroutines y) ≡ core (w.coroutines y)
  core-mark_by i true h k = ap (λ u. core (u.coroutines y)) (completed_before w t i h k)
  core-mark_by i false h k =
      ap (λ u. core (u.coroutines y)) (completed_now w t i h k) ∙ core-release (noted w t i) t y

  pub core-mark_completed : core ((mark_completed w t).coroutines y) ≡ core (w.coroutines y)
  core-mark_completed = by_id (w.coroutines t).id refl
    where
      by_id :
          (o : Option ℕ)
          → (w.coroutines t).id ≡ o
          → core ((mark_completed w t).coroutines y) ≡ core (w.coroutines y)
      by_id none h = ap (λ u. core (u.coroutines y)) (unnumbered w t h)
      by_id (some i) h = core-mark_by i (contains w.completed_ids i) h refl
