-- ===== src/Waiting/Release.antt =====
-- What `release_waiters` and `_mark_completed` do to the waiters of a task.
use mathlib.Core.List.{append-nil, append_assoc}
use nodus.Prelude.{
  ℕ, ◌≡◌, refl, sym, ap, ◌∙◌, Bool, true, false, Option, none, some, List, [], ◌∷◌, ◌++◌, arith,
  All, if◌then◌else◌,
}
use nodus.Tasks.{World, Coroutine, is_suspended, contains, add, update}
use nodus.Tasks.Laws.{contains-add}
use nodus.Waiting.{
  release_waiter, release_loop, release_by, release_waiters, mark_completed, first_error,
}

-- the waiters among `xs` that are suspended, in order
abbrev pub sleepers : {V E : Type 0} → (ℕ → Coroutine V E) → List ℕ → List ℕ
sleepers cs [] = []
sleepers cs (x ∷ xs) = if is_suspended (cs x).state then x ∷ sleepers cs xs else sleepers cs xs

module _ {V E : Type 0} (e : Option E) (v : V) where
  state-release :
      (w : World V E) (x y : ℕ)
      → ((release_waiter w e v x).coroutines y).state ≡ (w.coroutines y).state
  unfolding release_waiter
  state-release w x y = ground arith

  sleepers-release :
      (w : World V E) (x : ℕ) (ys : List ℕ)
      → sleepers (release_waiter w e v x).coroutines ys ≡ sleepers w.coroutines ys
  sleepers-release w x [] = refl
  sleepers-release w x (y ∷ ys) = rw (state-release w x y, sleepers-release w x ys) refl

  waiters-loop : (w : World V E) (xs : List ℕ) → (release_loop w e v xs).waiters ≡ w.waiters
  unfolding release_loop release_waiter
  waiters-loop w [] = refl
  waiters-loop w (x ∷ xs) = waiters-loop (release_waiter w e v x) xs ∙ ground arith

  ready-release :
      (w : World V E) (x : ℕ) (ys : List ℕ)
      → (release_waiter w e v x).ready_queue ++ sleepers w.coroutines ys
        ≡ w.ready_queue ++ sleepers w.coroutines (x ∷ ys)
  unfolding release_waiter
  ready-release w x ys = by_state (is_suspended (w.coroutines x).state) refl
    where
      by_state :
          (b : Bool)
          → is_suspended (w.coroutines x).state ≡ b
          → (release_waiter w e v x).ready_queue ++ sleepers w.coroutines ys
            ≡ w.ready_queue
              ++ (if b then x ∷ sleepers w.coroutines ys else sleepers w.coroutines ys)
      by_state true h = rw h (append_assoc w.ready_queue (x ∷ []) (sleepers w.coroutines ys))
      by_state false h = rw h refl

  ready-loop :
      (w : World V E) (xs : List ℕ)
      → (release_loop w e v xs).ready_queue ≡ w.ready_queue ++ sleepers w.coroutines xs
  unfolding release_loop
  ready-loop w [] = sym (append-nil w.ready_queue)
  ready-loop w (x ∷ xs) =
      ready-loop (release_waiter w e v x) xs
      ∙ ap (λ ys. (release_waiter w e v x).ready_queue ++ ys) (sleepers-release w x xs)
      ∙ ready-release w x xs

  abbrev Free : World V E → ℕ → Type 0
  Free w y = (w.coroutines y).blocked_on ≡ none

  Free-release : (w : World V E) (x y : ℕ) → Free w y → Free (release_waiter w e v x) y
  unfolding release_waiter
  Free-release w x y h = ground arith

  release-Free : (w : World V E) (x : ℕ) → Free (release_waiter w e v x) x
  unfolding release_waiter
  release-Free w x = ground arith

  Free-loop : (w : World V E) (xs : List ℕ) (y : ℕ) → Free w y → Free (release_loop w e v xs) y
  unfolding release_loop
  Free-loop w [] y h = h
  Free-loop w (x ∷ xs) y h = Free-loop (release_waiter w e v x) xs y (Free-release w x y h)

  loop-Free : (w : World V E) (xs : List ℕ) → All (Free (release_loop w e v xs)) xs
  unfolding release_loop
  loop-Free w [] = tt
  loop-Free w (x ∷ xs) = (
    Free-loop (release_waiter w e v x) xs x (release-Free w x),
    loop-Free (release_waiter w e v x) xs,
  )

  completed-loop :
      (w : World V E) (xs : List ℕ) → (release_loop w e v xs).completed_ids ≡ w.completed_ids
  unfolding release_loop release_waiter
  completed-loop w [] = refl
  completed-loop w (x ∷ xs) = completed-loop (release_waiter w e v x) xs ∙ ground arith

  id-release :
      (w : World V E) (x y : ℕ) → ((release_waiter w e v x).coroutines y).id ≡ (w.coroutines y).id
  unfolding release_waiter
  id-release w x y = ground arith

  id-loop :
      (w : World V E) (xs : List ℕ) (y : ℕ)
      → ((release_loop w e v xs).coroutines y).id ≡ (w.coroutines y).id
  unfolding release_loop
  id-loop w [] y = refl
  id-loop w (x ∷ xs) y = id-loop (release_waiter w e v x) xs y ∙ id-release w x y

module _ {V E : Type 0} (w : World V E) (t i : ℕ) where
  -- When a task settles, everybody who waits for it is released: nobody waits for it any more, the
  -- waiters that are suspended join the ready queue in the order in which they came, and none of
  -- the waiters is blocked.
  pub release_waiters-wakes :
      (w.coroutines t).id ≡ some i
      → ((release_waiters w t).waiters i ≡ [])
        × ((release_waiters w t).ready_queue ≡ w.ready_queue ++ sleepers w.coroutines (w.waiters i))
        × All (λ x. ((release_waiters w t).coroutines x).blocked_on ≡ none) (w.waiters i)
  unfolding release_waiters
  release_waiters-wakes h =
      let x = w.coroutines t in
      let e = first_error x.cancelled_error x.failure in
      let w₁ : World V E = record w { waiters = update w.waiters i [] } in
      rw h (
        ap (λ f. f i) (waiters-loop e x.last_result w₁ (w.waiters i)) ∙ ground arith,
        ready-loop e x.last_result w₁ (w.waiters i),
        loop-Free e x.last_result w₁ (w.waiters i),
      )

module _ {V E : Type 0} where
  id-by :
      (w : World V E) (t : Coroutine V E) (o : Option ℕ) (y : ℕ)
      → ((release_by w t o).coroutines y).id ≡ (w.coroutines y).id
  id-by w t none y = refl
  id-by w t (some i) y =
      id-loop (first_error t.cancelled_error t.failure) t.last_result
        (record w { waiters = update w.waiters i [] }) (w.waiters i) y

  completed-by :
      (w : World V E) (t : Coroutine V E) (o : Option ℕ)
      → (release_by w t o).completed_ids ≡ w.completed_ids
  completed-by w t none = refl
  completed-by w t (some i) =
      completed-loop (first_error t.cancelled_error t.failure) t.last_result
        (record w { waiters = update w.waiters i [] }) (w.waiters i)

module _ {V E : Type 0} (w : World V E) (c i : ℕ) where
  pub completed_before :
      (w.coroutines c).id ≡ some i → contains w.completed_ids i ≡ true → mark_completed w c ≡ w
  unfolding mark_completed
  completed_before h k = ground arith

  abbrev pub noted : World V E
  noted = record w {
    completed_ids = add i w.completed_ids;
    completed_tasks = w.completed_tasks ++ c ∷ [];
  }

  pub completed_now :
      (w.coroutines c).id ≡ some i
      → contains w.completed_ids i ≡ false
      → mark_completed w c ≡ release_waiters noted c
  unfolding mark_completed
  completed_now h k = ground arith

  id-noted : (w.coroutines c).id ≡ some i → ((release_waiters noted c).coroutines c).id ≡ some i
  unfolding release_waiters
  id-noted h = id-by noted (w.coroutines c) (w.coroutines c).id c ∙ h

  pub contains-noted :
      (w.coroutines c).id ≡ some i → contains (release_waiters noted c).completed_ids i ≡ true
  unfolding release_waiters
  contains-noted h =
      ap (λ xs. contains xs i) (completed-by noted (w.coroutines c) (w.coroutines c).id)
      ∙ contains-add i i w.completed_ids
      ∙ ground arith

  pub contains-mark_completed :
      (w.coroutines c).id ≡ some i → contains (mark_completed w c).completed_ids i ≡ true
  contains-mark_completed h = by_test (contains w.completed_ids i) refl
    where
      by_test :
          (b : Bool)
          → contains w.completed_ids i ≡ b
          → contains (mark_completed w c).completed_ids i ≡ true
      by_test true k = ap (λ u. contains u.completed_ids i) (completed_before h k) ∙ k
      by_test false k = ap (λ u. contains u.completed_ids i) (completed_now h k) ∙ contains-noted h

  pub completed_ids-release : (release_waiters w c).completed_ids ≡ w.completed_ids
  unfolding release_waiters
  completed_ids-release = completed-by w (w.coroutines c) (w.coroutines c).id

module _ {V E : Type 0} (w : World V E) (c i : ℕ) where
  completed_again :
      (b : Bool)
      → (w.coroutines c).id ≡ some i
      → contains w.completed_ids i ≡ b
      → mark_completed (mark_completed w c) c ≡ mark_completed w c
  completed_again true h k = ap (λ x. mark_completed x c) (completed_before w c i h k)
  completed_again false h k =
      ap (λ x. mark_completed x c) (completed_now w c i h k)
      ∙ completed_before (release_waiters (noted w c i) c) c i (id-noted w c i h)
          (contains-noted w c i h)
      ∙ sym (completed_now w c i h k)

module _ {V E : Type 0} (w : World V E) (c : ℕ) where
  pub unnumbered : (w.coroutines c).id ≡ none → mark_completed w c ≡ w
  unfolding mark_completed
  unnumbered h = ground arith

  completed_twice :
      (o : Option ℕ)
      → (w.coroutines c).id ≡ o
      → mark_completed (mark_completed w c) c ≡ mark_completed w c
  completed_twice none h = ap (λ x. mark_completed x c) (unnumbered h)
  completed_twice (some i) h = completed_again w c i (contains w.completed_ids i) h refl

  -- A task is completed once: completing it again changes nothing, so it is not listed twice and
  -- releases nobody a second time.
  pub mark_completed-idempotent : mark_completed (mark_completed w c) c ≡ mark_completed w c
  mark_completed-idempotent = completed_twice (w.coroutines c).id refl
