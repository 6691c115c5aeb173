-- ===== src/Waiting/Unpark.antt =====
-- What `unpark` clears, and that it keeps every channel in shape.
use nodus.Prelude.{
  ℕ, suc, ◌-◌, ◌≡◌, ◌≢◌, inl, inr, refl, Bool, true, false, Option, none, some, List, [], ◌∷◌, ◌==◌,
  arith, All, if◌then◌else◌,
}
use nodus.Tasks.{World, Channel, Ref, set_coroutine, unblocked}
use nodus.Tasks.Laws.{update_self, update_ne}
use nodus.Channels.Effects.{SendersSuspended}
use nodus.Channels.Shape.{IsShaped}
use nodus.Channels.{send, recv, close}
use nodus.Channels.Preserve.{
  send-IsValid, recv-IsValid, close-IsValid, IsValid, change-IsValid, SendersSuspended-mono,
  KeepsSuspended,
}
use nodus.Waiting.{without, remove, leave_channel, dequeue, unpark}

module _ {A : Type 0} (f : A → ℕ) (c : ℕ) where
  without-nil : (xs : List A) → xs ≡ [] → without f c xs ≡ []
  unfolding without
  without-nil [] e = refl
  without-nil (x ∷ xs) e = ground arith

  without-All : (xs : List A) → All (λ x. f x ≢ c) (without f c xs)
  unfolding without
  without-All [] = tt
  without-All (x ∷ xs) = by_test (f x == c) refl (without-All xs)
    where
      by_test :
          (b : Bool)
          → (f x == c) ≡ b
          → All (λ y. f y ≢ c) (without f c xs)
          → All (λ y. f y ≢ c) (if b then without f c xs else x ∷ without f c xs)
      by_test true e h = h
      by_test false e h = (λ (k : f x ≡ c). ground arith, h)

abbrev pub count : ℕ → List ℕ → ℕ
count c [] = 0
count c (x ∷ xs) = if x == c then suc (count c xs) else count c xs

count-remove : (c : ℕ) (xs : List ℕ) → count c (remove c xs) ≡ count c xs - 1
unfolding remove
count-remove c [] = omega arith
count-remove c (x ∷ xs) = ground (arith, count-remove c xs)

module _ {V : Type 0} (c : ℕ) (ch : Channel V) where
  abbrev left : Channel V
  left = record ch {
    waiting_receivers = without (λ r. r) c ch.waiting_receivers;
    waiting_senders = without (λ p. p.0) c ch.waiting_senders;
  }

  left-IsShaped : IsShaped ch → IsShaped left
  left-IsShaped s = record {
    apart = elim s.apart [
      | inl e ↦ inl (without-nil (λ r. r) c _ e)
      | inr e ↦ inr (e.0, without-nil (λ p. p.0) c _ e.1)
    ];
    full = elim s.full [ inl e ↦ inl (without-nil (λ p. p.0) c _ e) | inr e ↦ inr e ];
    bounded = s.bounded;
    quiet = elim s.quiet [ inl e ↦ inl e | inr e ↦ inr (without-nil (λ r. r) c _ e) ];
  }

module _ {V E : Type 0} (w : World V E) (c : ℕ) where
  without-SendersSuspended :
      (ss : List (ℕ × V)) → SendersSuspended w ss → SendersSuspended w (without (λ p. p.0) c ss)
  unfolding without
  without-SendersSuspended [] a = tt
  without-SendersSuspended (p ∷ ss) a = by_test (p.0 == c) (without-SendersSuspended ss a.1)
    where
      by_test :
          (b : Bool)
          → SendersSuspended w (without (λ p. p.0) c ss)
          → SendersSuspended w (if b then without (λ p. p.0) c ss else p ∷ without (λ p. p.0) c ss)
      by_test true h = h
      by_test false h = (a.0, h)

module _ {V E : Type 0} (w : World V E) (c : ℕ) where
  abbrev after : Option Ref → World V E
  after o = set_coroutine (leave_channel (dequeue w c) c o) c (unblocked (w.coroutines c))

  keeps : (o : Option Ref) → KeepsSuspended w (after o)
  keeps (some (Ref.channel h)) d e = ground arith
  keeps (some (Ref.task t)) d e = ground arith
  keeps none d e = ground arith

  unblocked-IsValid :
      (o : Option Ref) → IsValid w → (after o).channels ≡ w.channels → IsValid (after o)
  unblocked-IsValid o valid e k =
      rw e ((valid k).0, SendersSuspended-mono w (after o) _ (keeps o) (valid k).1)

  after-IsValid : (o : Option Ref) → IsValid w → IsValid (after o)
  after-IsValid (some (Ref.channel h)) valid =
      let o = some (Ref.channel h) in
      let ch = w.channels h in
      change-IsValid w (after o) h (left c ch) valid (update_self w.channels h (left c ch))
        (λ k ne. update_ne w.channels h k (left c ch) ne) (keeps o) (left-IsShaped c ch (valid h).0)
        (SendersSuspended-mono w (after o) _ (keeps o)
          (without-SendersSuspended w c ch.waiting_senders (valid h).1))
  after-IsValid (some (Ref.task t)) valid = unblocked-IsValid (some (Ref.task t)) valid refl
  after-IsValid none valid = unblocked-IsValid none valid refl

  -- `unpark` keeps every channel in shape: taking a waiter off a channel leaves no value behind a
  -- receiver and no sender on a channel that is not full.
  pub unpark-IsValid : IsValid w → IsValid (unpark w c)
  unfolding unpark
  unpark-IsValid = after-IsValid (w.coroutines c).blocked_on

-- The coroutine waits neither to receive nor to send on the channel that `o` refers to.
abbrev pub Gone : {V E : Type 0} → World V E → ℕ → Option Ref → Type 0
Gone w c (some (Ref.channel h)) =
    All (λ r. r ≢ c) (w.channels h).waiting_receivers
    × All (λ p. p.0 ≢ c) (w.channels h).waiting_senders
Gone w c _ = Unit

module _ {V E : Type 0} (w : World V E) (c : ℕ) where
  after-Gone : (o : Option Ref) → Gone (after w c o) c o
  after-Gone (some (Ref.channel h)) = rw (update_self w.channels h (left c (w.channels h))) (
    without-All (λ r. r) c (w.channels h).waiting_receivers,
    without-All (λ p. p.0) c (w.channels h).waiting_senders,
  )
  after-Gone (some (Ref.task t)) = tt
  after-Gone none = tt

  timers-after : (o : Option Ref) → All (λ t. t.sleeper ≢ c) (after w c o).timers
  timers-after (some (Ref.channel h)) = without-All (λ t. t.sleeper) c w.timers
  timers-after (some (Ref.task t)) = without-All (λ t. t.sleeper) c w.timers
  timers-after none = without-All (λ t. t.sleeper) c w.timers

  ready-after : (o : Option Ref) → count c (after w c o).ready_queue ≡ count c w.ready_queue - 1
  ready-after (some (Ref.channel h)) = count-remove c w.ready_queue
  ready-after (some (Ref.task t)) = count-remove c w.ready_queue
  ready-after none = count-remove c w.ready_queue

  -- After `unpark` a coroutine is in no timer, waits on no side of the channel that it was blocked
  -- on, is not blocked, and stands in the ready queue once less than before, if it
  -- stood there.
  pub unpark-clears :
      All (λ t. t.sleeper ≢ c) (unpark w c).timers
      × Gone (unpark w c) c (w.coroutines c).blocked_on
      × (((unpark w c).coroutines c).blocked_on ≡ none)
      × (count c (unpark w c).ready_queue ≡ count c w.ready_queue - 1)
  unfolding unpark
  unpark-clears =
      let o = (w.coroutines c).blocked_on in
      (timers-after o, after-Gone o, ground arith, ready-after o)

-- Whatever is done to a channel keeps every channel in shape: `send`, whether it returns, suspends
-- the caller or raises, `recv`, `close`, and the unparking of a coroutine. Waiting receivers never
-- coexist with buffered values or parked senders, senders wait only on a full open channel, an open
-- bounded queue keeps its bound, nobody waits on a closed channel, and parked senders are
-- suspended.
pub channels-IsValid :
    {V E : Type 0} (nil : V) (w : World V E) (h : ℕ) (v : V) (c : ℕ)
    → IsValid w
    → IsValid (send nil w h v).0
      × IsValid (recv nil w h).0
      × IsValid (close nil w h).0
      × IsValid (unpark w c)
channels-IsValid nil w h v c valid = (
  send-IsValid nil w h valid v,
  recv-IsValid nil w h valid,
  close-IsValid nil w h valid,
  unpark-IsValid w c valid,
)
