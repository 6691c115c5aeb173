-- ===== src/Scheduler/Waited.antt =====
-- That `wait` marks a task before anybody stands among its waiters.
use nodus.Prelude.{
  ℕ, ◌≡◌, ◌≢◌, ◌⊎◌, inl, inr, sym, ap, ◌∙◌, Bool, true, false, some, [], arith, if◌then◌else◌, ◌==◌,
}
use nodus.Tasks.{World, set_coroutine, is_finished}
use nodus.Tasks.Laws.{update_self, update_ne}
use nodus.Channels.{same_task}
use nodus.Waiting.{park_waiter}
use nodus.Scheduler.Turn.{Host}
use nodus.Scheduler.Join.{Joined, joins_itself, parked, park_on, settled_outcome, wait}

-- Somebody called `wait` for the task, or nobody stands among its waiters.
abbrev pub Waited : {V E : Type 0} → World V E → ℕ → ℕ → Type 0
Waited w c i = ((w.coroutines c).waited_on ≡ true) ⊎ (w.waiters i ≡ [])

module _ {V E : Type 0} (host : Host V E) (n : ℕ) (w : World V E) (c i : ℕ) where
  waited_on-park :
      (nil : V) (d t j : ℕ)
      → ((park_on nil w d t j).coroutines c).waited_on ≡ (w.coroutines c).waited_on
  unfolding park_waiter
  waited_on-park nil d t j = ground arith

  waiters-park : (nil : V) (d t j : ℕ) → j ≢ i → (park_on nil w d t j).waiters i ≡ w.waiters i
  unfolding park_waiter
  waiters-park nil d t j ne = update_ne w.waiters j i _ ne

  Waited-park :
      (nil : V) (d t j : ℕ)
      → ((w.coroutines c).waited_on ≡ true) ⊎ ((j ≢ i) × (w.waiters i ≡ []))
      → Waited (park_on nil w d t j) c i
  Waited-park nil d t j (inl h) = inl (waited_on-park nil d t j ∙ h)
  Waited-park nil d t j (inr (ne, h)) = inr (waiters-park nil d t j ne ∙ h)

module _ {V E : Type 0} (host : Host V E) (n : ℕ) (w : World V E) (c i t j d : ℕ) where
  -- the task `t` is marked
  abbrev marked : World V E
  marked = set_coroutine w t (record (w.coroutines t) { waited_on = true })

  marked-Waited :
      (t ≡ c) ⊎ (j ≢ i)
      → Waited w c i
      → ((marked.coroutines c).waited_on ≡ true) ⊎ ((j ≢ i) × (marked.waiters i ≡ []))
  marked-Waited (inl same) h = inl (
      ap (λ x. (marked.coroutines x).waited_on) (sym same)
      ∙ ap (λ x. x.waited_on) (update_self w.coroutines t _))
  marked-Waited (inr ne) (inl h) = inl (ground (arith, h))
  marked-Waited (inr ne) (inr h) = inr (ne, h)

  weaken :
      ((marked.coroutines c).waited_on ≡ true) ⊎ ((j ≢ i) × (marked.waiters i ≡ []))
      → Waited marked c i
  weaken (inl h) = inl h
  weaken (inr (ne, h)) = inr h

  -- A `wait` in the coroutine `d` for the task `t` leaves it so that somebody called `wait` for the
  -- task `c` or nobody stands among its waiters. Only `c` has the number of `c`.
  pub wait-Waited :
      same_task w.current_coroutine w.current_task ≡ some d
      → (w.coroutines t).id ≡ some j
      → (t ≡ c) ⊎ (j ≢ i)
      → Waited w c i
      → Waited (wait host n w t).0 c i
  unfolding wait
  wait-Waited inside numbered other h =
      rw numbered (rw inside (by_state (is_finished (w.coroutines t).state) (d == t)))
    where
      by_state :
          (b b₁ : Bool)
          → (let r : World V E × Joined V E =
                if b
                then (w, settled_outcome (w.coroutines t))
                else (if b₁
                    then (marked, joins_itself)
                    else (park_on host.nil marked d t j, parked)) in
              Waited r.0 c i)
      by_state true b₁ = h
      by_state false true = weaken (marked-Waited other h)
      by_state false false = Waited-park host n marked c i host.nil d t j (marked-Waited other h)
