-- ===== src/Channels/Effects.antt =====
-- What each part of `send`, `recv` and `close` does to the channels, and to the states of tasks.
use nodus.Prelude.{ℕ, ◌≡◌, inl, inr, List, [], ◌∷◌, ◌++◌, map, All, arith, Bool-cases}
use nodus.Tasks.{World, suspended, update, is_suspended, delivered}
use nodus.Tasks.Laws.{coroutines-schedule, channels-schedule, ready_queue-schedule, update_self}
use nodus.Channels.{hand_over, admit, flush_one, release_one}

-- Every parked sender is suspended.
abbrev pub SendersSuspended : {V E : Type 0} → World V E → List (ℕ × V) → Type 0
SendersSuspended w = All (λ p. (w.coroutines p.0).state ≡ suspended)

abbrev pub values : {V : Type 0} → List (ℕ × V) → List V
values = map (λ p. p.1)

module _ {V E : Type 0} (nil : V) (w : World V E) (h : ℕ) where
  pub channels-hand_over :
      (v : V) (r : ℕ) (rs : List ℕ)
      → (hand_over nil w h v r rs).channels
        ≡ update w.channels h (record (w.channels h) { waiting_receivers = rs })
  unfolding hand_over
  channels-hand_over v r [] = rw channels-schedule
  channels-hand_over v r (s ∷ rs) = rw channels-schedule

  pub state-hand_over :
      (v : V) (r : ℕ) (rs : List ℕ) (c : ℕ)
      → ((hand_over nil w h v r rs).coroutines c).state ≡ (w.coroutines c).state
  unfolding hand_over
  state-hand_over v r [] c = rw coroutines-schedule (ground arith)
  state-hand_over v r (s ∷ rs) c = rw coroutines-schedule (ground arith)

  pub coroutine-hand_over :
      (v : V) (r : ℕ) (rs : List ℕ)
      → (hand_over nil w h v r rs).coroutines r ≡ delivered v (w.coroutines r)
  unfolding hand_over
  coroutine-hand_over v r [] = rw coroutines-schedule (update_self w.coroutines r _)
  coroutine-hand_over v r (s ∷ rs) = rw coroutines-schedule (update_self w.coroutines r _)

  pub ready_queue-hand_over :
      (v : V) (r : ℕ) (rs : List ℕ)
      → (w.coroutines r).state ≡ suspended
      → (hand_over nil w h v r rs).ready_queue ≡ w.ready_queue ++ r ∷ []
  unfolding hand_over
  ready_queue-hand_over v r [] s = ready_queue-schedule _ r (ground arith)
  ready_queue-hand_over v r (x ∷ rs) s = ready_queue-schedule _ r (ground arith)

  pub channels-admit :
      (s : ℕ) (v : V) (rest : List (ℕ × V))
      → (admit nil w h s v rest).channels
        ≡ update w.channels h (record (w.channels h) {
          waiting_senders = rest;
          queue = (w.channels h).queue ++ v ∷ [];
        })
  unfolding admit
  channels-admit s v rest = rw channels-schedule

  pub state-admit :
      (s : ℕ) (v : V) (rest : List (ℕ × V)) (c : ℕ)
      → ((admit nil w h s v rest).coroutines c).state ≡ (w.coroutines c).state
  unfolding admit
  state-admit s v rest c = rw coroutines-schedule (ground arith)

  pub channels-flush_one :
      (s : ℕ) (v : V) (rest : List (ℕ × V))
      → (flush_one nil w h s v rest).channels
        ≡ update w.channels h (record (w.channels h) {
          waiting_senders = rest;
          queue = (w.channels h).queue ++ v ∷ [];
        })
  unfolding flush_one
  channels-flush_one s v rest = ground (arith, channels-admit s v rest)

  pub state-flush_one :
      (s : ℕ) (v : V) (rest : List (ℕ × V)) (c : ℕ)
      → ((flush_one nil w h s v rest).coroutines c).state ≡ (w.coroutines c).state
  unfolding flush_one
  state-flush_one s v rest c = ground (arith, state-admit s v rest c)

  pub channels-release_one :
      (r : ℕ) (rest : List ℕ)
      → (release_one nil w h r rest).channels
        ≡ update w.channels h (record (w.channels h) { waiting_receivers = rest })
  unfolding release_one
  channels-release_one r rest = elim (Bool-cases (is_suspended (w.coroutines r).state)) [
    | inl e ↦ rw (e, channels-schedule)
    | inr e ↦ rw e
  ]

  pub state-release_one :
      (r : ℕ) (rest : List ℕ) (c : ℕ)
      → ((release_one nil w h r rest).coroutines c).state ≡ (w.coroutines c).state
  unfolding release_one
  state-release_one r rest c = elim (Bool-cases (is_suspended (w.coroutines r).state)) [
    | inl e ↦ rw (e, coroutines-schedule) (ground arith)
    | inr e ↦ rw e
  ]
