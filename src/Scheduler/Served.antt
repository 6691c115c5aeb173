-- ===== src/Scheduler/Served.antt =====
-- The theorem of the scheduler's liveness.
use mathlib.Core.Path.{subst}
use nodus.Prelude.{
  ℕ, zero, suc, ◌≡◌, ◌⊎◌, inl, inr, refl, sym, ap, ◌∙◌, Bool, true, false, List, [], ◌∷◌, ◌==◌,
  arith, ◌||◌, ==_iff,
}
use nodus.Tasks.{World, is_finished}
use nodus.Channels.{is_empty}
use nodus.Scheduler.Queue.{Grows-drain}
use nodus.Scheduler.Turn.{Host, Turn, goes, leaves, raises, turn, serve, drain, asks}
use nodus.Scheduler.Liveness.{
  soon, soon-append, Due, Fair, AfterDue, serve-AfterDue, Ends, ServesNow, Served,
}

soon-nonempty : (n d : ℕ) (xs : List ℕ) → soon n d xs ≡ true → is_empty xs ≡ false
soon-nonempty n d [] h = ground arith
soon-nonempty n d (x ∷ xs) h = refl

soon-rest :
    (n d x : ℕ) (xs : List ℕ)
    → (x == d) ≡ false
    → soon (suc n) d (x ∷ xs) ≡ true
    → soon n d xs ≡ true
soon-rest n d x xs e h = ground arith

module _ {V E : Type 0} (host : Host V E) (d : ℕ) where
  now_Served : (n : ℕ) (w : World V E) (s : Bool) → ServesNow host w s d → Served host n w s d
  now_Served zero w s h = h
  now_Served (suc n) w s h = inl h

  turn_leaves :
      (w : World V E) (s : Bool)
      → is_empty w.ready_queue ≡ false
      → asks host.until w ≡ true
      → turn host w s ≡ leaves w
  unfolding turn
  turn_leaves w s h k = rw (h, k) refl

  turn_serves :
      (w : World V E) (s : Bool) (c : ℕ) (rest : List ℕ)
      → is_empty w.ready_queue ≡ false
      → asks host.until w ≡ false
      → (drain host w).ready_queue ≡ c ∷ rest
      → turn host w s ≡ serve host (record (drain host w) { ready_queue = rest }) c s
  unfolding turn
  turn_serves w s c rest h k q = rw (h, k, q) refl

  -- This turn serves `d`, or `d` comes one place nearer.
  abbrev Progress : ℕ → World V E → Bool → Type 0
  Progress zero w s = ServesNow host w s d
  Progress (suc n) w s =
      ServesNow host w s d
      ⊎ ((w₁ : World V E) × (s₁ : Bool) × (turn host w s ≡ goes w₁ s₁) × Due n d w₁)

  now_Progress : (n : ℕ) (w : World V E) (s : Bool) → ServesNow host w s d → Progress n w s
  now_Progress zero w s h = h
  now_Progress (suc n) w s h = inl h

  -- a turn that serves another coroutine, by how it ends
  after_serve :
      (n : ℕ) (w : World V E) (s : Bool) (t : Turn V E)
      → turn host w s ≡ t
      → AfterDue n d t
      → Progress (suc n) w s
  after_serve n w s (goes w₁ s₁) e h = inr (w₁, s₁, e, h)
  after_serve n w s (leaves w₁) e h = inl (inr (inl (subst Ends (sym e) tt)))
  after_serve n w s (raises w₁ x) e h = inl (inr (inl (subst Ends (sym e) tt)))

module _ {V E : Type 0} (host : Host V E) (fair : Fair host) (d : ℕ) where
  -- the head `c` of the queue is popped
  pops :
      (n : ℕ) (w : World V E) (s : Bool) (c : ℕ) (rest : List ℕ) (b : Bool)
      → (c == d) ≡ b
      → soon n d (c ∷ rest) ≡ true
      → turn host w s ≡ serve host (record (drain host w) { ready_queue = rest }) c s
      → Progress host d n w s
  pops n w s c rest true e h t =
      let w₁ = record (drain host w) { ready_queue = rest } in
      now_Progress host d n w s (inr (inr (w₁, t ∙ ap (λ x. serve host w₁ x s) ((==_iff c d).0 e))))
  pops zero w s c rest false e h t = ground arith
  pops (suc n) w s c rest false e h t =
      let w₁ = record (drain host w) { ready_queue = rest } in
      let due : Due n d w₁ = record { holds = ground (arith, soon-rest n d c rest e h) } in
      after_serve host d n w s (serve host w₁ c s) t (serve-AfterDue host fair n d w₁ c s due)

  queued :
      (n : ℕ) (w : World V E) (s : Bool) (q : List ℕ)
      → (drain host w).ready_queue ≡ q
      → is_empty w.ready_queue ≡ false
      → asks host.until w ≡ false
      → soon n d q ≡ true
      → Progress host d n w s
  queued n w s [] e h k a = ground arith
  queued n w s (c ∷ rest) e h k a =
      pops n w s c rest (c == d) refl a (turn_serves host d w s c rest h k e)

  progress : (n : ℕ) (w : World V E) (s : Bool) → Due n d w → Progress host d n w s
  progress n w s due = by_state (is_finished (w.coroutines d).state) refl due.holds
    where
      by_until :
          (b : Bool)
          → asks host.until w ≡ b
          → soon n d w.ready_queue ≡ true
          → soon n d (drain host w).ready_queue ≡ true
          → Progress host d n w s
      by_until true e a a₁ = now_Progress host d n w s (
          inr (
            inl
              (subst Ends (sym (turn_leaves host d w s (soon-nonempty n d w.ready_queue a) e)) tt)))
      by_until false e a a₁ =
          queued n w s (drain host w).ready_queue refl (soon-nonempty n d w.ready_queue a) e a₁

      by_state :
          (b : Bool)
          → is_finished (w.coroutines d).state ≡ b
          → (b || soon n d w.ready_queue) ≡ true
          → Progress host d n w s
      by_state true e h = now_Progress host d n w s (inl e)
      by_state false e h =
          let g = Grows-drain host.nil w in
          by_until (asks host.until w) refl h (rw g.queue (soon-append n d w.ready_queue g.more h))

  -- The ready queue is fair: a coroutine with at most `n` others ahead of it in the queue is served
  -- within `n + 1` turns of the loop, unless it is finished or the loop ends first, whatever the
  -- timers and channels wake in the meantime, as long as what the host runs takes nobody's place in
  -- the queue away.
  pub ready_queue-Served : (n : ℕ) (w : World V E) (s : Bool) → Due n d w → Served host n w s d
  ready_queue-Served zero w s due = progress zero w s due
  ready_queue-Served (suc n) w s due = elim (progress (suc n) w s due) [
    | inl now ↦ inl now
    | inr (w₁, s₁, e, h) ↦ inr (w₁, s₁, e, ready_queue-Served n w₁ s₁ h)
  ]
