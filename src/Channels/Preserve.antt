-- ===== src/Channels/Preserve.antt =====
-- `send`, `recv` and `close` keep every channel in shape.
use nodus.Prelude.{
  ℕ, ◌≡◌, ◌≢◌, inl, inr, refl, sym, true, false, Option, none, some, List, [], ◌∷◌, ◌++◌,
  All-append, arith, ◌==◌, Bool-cases, ◌∙◌, ap, ==_iff,
}
use nodus.Tasks.{World, Channel, suspended, set_channel, discard}
use nodus.Tasks.Laws.{update_self, update_ne}
use nodus.Channels.{
  hand_over, park_sender, enqueue, park_receiver, wake_one_sender, flush_senders, is_full, send,
  send_open, send_blocked, same_task, recv, recv_from, recv_empty, close, close_open,
}
use nodus.Channels.Effects.{SendersSuspended, channels-hand_over, state-hand_over}
use nodus.Channels.Loops.{
  flushed, refilled, taken, channel-take, channel-take_ne, state-wake_one_sender,
  channels-flush_senders, channels-flush_senders_ne, state-flush_senders,
  channels-release_receivers, channels-release_receivers_ne, state-release_receivers,
}
use nodus.Channels.Shape.{
  IsShaped, handed-IsShaped, parked_sender-IsShaped, enqueued-IsShaped, parked_receiver-IsShaped,
  refilled-IsShaped, closed-IsShaped,
}

-- Every channel is in shape, and the senders that are parked on it are suspended.
abbrev pub IsValid : {V E : Type 0} → World V E → Type 0
IsValid w = (k : ℕ) → IsShaped (w.channels k) × SendersSuspended w (w.channels k).waiting_senders

module _ {V E : Type 0} (w w' : World V E) where
  -- no task leaves the suspended state
  abbrev pub KeepsSuspended : Type 0
  KeepsSuspended =
      (c : ℕ) → (w.coroutines c).state ≡ suspended → (w'.coroutines c).state ≡ suspended

  pub SendersSuspended-mono :
      (ss : List (ℕ × V)) → KeepsSuspended → SendersSuspended w ss → SendersSuspended w' ss
  SendersSuspended-mono [] keep a = tt
  SendersSuspended-mono (p ∷ ss) keep a = (keep p.0 a.0, SendersSuspended-mono ss keep a.1)

  -- A change of one channel.
  pub change-IsValid :
      (h : ℕ) (ch : Channel V)
      → IsValid w
      → w'.channels h ≡ ch
      → ((k : ℕ) → h ≢ k → w'.channels k ≡ w.channels k)
      → KeepsSuspended
      → IsShaped ch
      → SendersSuspended w' ch.waiting_senders
      → IsValid w'
  change-IsValid h ch valid at_h others keep shaped senders k = elim (Bool-cases (h == k)) [
    | inl e ↦ rw (sym ((==_iff h k).0 e)) (rw at_h (shaped, senders))
    | inr e ↦
        rw (others k (λ (p : h ≡ k). ground arith))
          ((valid k).0, SendersSuspended-mono _ keep (valid k).1)
  ]

module _ {V E : Type 0} (nil : V) (w : World V E) (h : ℕ) (valid : IsValid w) where
  hand_over-IsValid :
      (v : V) (r : ℕ) (rs : List ℕ)
      → (w.channels h).waiting_receivers ≡ r ∷ rs
      → IsValid (hand_over nil w h v r rs)
  hand_over-IsValid v r rs e =
      change-IsValid w (hand_over nil w h v r rs) h
        (record (w.channels h) { waiting_receivers = rs }) valid
        (rw channels-hand_over (update_self w.channels h _))
        (λ k ne. rw channels-hand_over (update_ne w.channels h k _ ne)) keep
        (handed-IsShaped (w.channels h) (valid h).0 r rs e)
        (SendersSuspended-mono w (hand_over nil w h v r rs) (w.channels h).waiting_senders keep
          (valid h).1)
    where
      keep :
          (c : ℕ)
          → (w.coroutines c).state ≡ suspended
          → ((hand_over nil w h v r rs).coroutines c).state ≡ suspended
      keep c s = state-hand_over nil w h v r rs c ∙ s

  enqueue-IsValid :
      (v : V)
      → (w.channels h).closed ≡ false
      → (w.channels h).waiting_receivers ≡ []
      → is_full (w.channels h) ≡ false
      → IsValid (enqueue nil w h v)
  unfolding enqueue
  enqueue-IsValid v open_ rs e =
      change-IsValid w (enqueue nil w h v) h
        (record (w.channels h) { queue = (w.channels h).queue ++ v ∷ [] }) valid
        (update_self w.channels h _) (λ k ne. update_ne w.channels h k _ ne) (λ c s. s)
        (enqueued-IsShaped (w.channels h) (valid h).0 v open_ rs e) (valid h).1

  park_sender-IsValid :
      (v : V) (c : ℕ)
      → (w.channels h).closed ≡ false
      → (w.channels h).waiting_receivers ≡ []
      → is_full (w.channels h) ≡ true
      → IsValid (park_sender nil w h v c)
  unfolding park_sender
  park_sender-IsValid v c open_ rs e =
      change-IsValid w (park_sender nil w h v c) h
        (record (w.channels h) { waiting_senders = (w.channels h).waiting_senders ++ (c, v) ∷ [] })
        valid (update_self w.channels h _) (λ k ne. update_ne w.channels h k _ ne) keep
        (parked_sender-IsShaped (w.channels h) (valid h).0 c v open_ rs e)
        (All-append _ (w.channels h).waiting_senders ((c, v) ∷ [])
          (SendersSuspended-mono w (park_sender nil w h v c) _ keep (valid h).1) (ground arith, tt))
    where
      keep :
          (d : ℕ)
          → (w.coroutines d).state ≡ suspended
          → ((park_sender nil w h v c).coroutines d).state ≡ suspended
      keep d s = ground arith

  park_receiver-IsValid :
      (c : ℕ)
      → (w.channels h).closed ≡ false
      → (w.channels h).queue ≡ []
      → IsValid (park_receiver nil w h c)
  unfolding park_receiver
  park_receiver-IsValid c open_ q =
      change-IsValid w (park_receiver nil w h c) h
        (record (w.channels h) { waiting_receivers = (w.channels h).waiting_receivers ++ c ∷ [] })
        valid (update_self w.channels h _) (λ k ne. update_ne w.channels h k _ ne) keep
        (parked_receiver-IsShaped (w.channels h) (valid h).0 c open_ q)
        (SendersSuspended-mono w (park_receiver nil w h c) _ keep (valid h).1)
    where
      keep :
          (d : ℕ)
          → (w.coroutines d).state ≡ suspended
          → ((park_receiver nil w h c).coroutines d).state ≡ suspended
      keep d s = ground arith

  SendersSuspended-refilled :
      (ch : Channel V) (ss : List (ℕ × V))
      → SendersSuspended w ss
      → SendersSuspended w (refilled ch ss).waiting_senders
  SendersSuspended-refilled ch [] a = tt
  SendersSuspended-refilled ch (p ∷ ss) a = a.1

  taken-IsValid :
      (v : V) (rest : List V)
      → (w.channels h).queue ≡ v ∷ rest
      → IsValid (wake_one_sender nil (taken nil w h rest) h)
  taken-IsValid v rest q =
      change-IsValid w w' h (refilled ch ss) valid (channel-take nil w h rest (valid h).1)
        (λ k ne. channel-take_ne nil w h k rest ne (valid h).1) keep
        (refilled-IsShaped (w.channels h) (valid h).0 v rest ss q refl)
        (SendersSuspended-mono w w' _ keep (SendersSuspended-refilled ch ss (valid h).1))
    where
      ss : List (ℕ × V)
      ss = (w.channels h).waiting_senders

      ch : Channel V
      ch = record (w.channels h) { queue = rest }

      w' : World V E
      w' = wake_one_sender nil (taken nil w h rest) h

      keep : (c : ℕ) → (w.coroutines c).state ≡ suspended → (w'.coroutines c).state ≡ suspended
      keep c s = state-wake_one_sender nil (taken nil w h rest) h c ∙ s

-- The last channel of `close`, and the states after it.
module _ {V E : Type 0} (nil : V) (w : World V E) (h : ℕ) where
  shut : World V E
  shut = set_channel w h (record (w.channels h) { closed = true })

  after_flush : World V E
  after_flush = flush_senders nil shut h (w.channels h).waiting_senders

  pub channel-close_open :
      (close_open nil w h).channels h
      ≡ record (flushed (record (w.channels h) { closed = true }) (w.channels h).waiting_senders) {
        waiting_receivers = [];
      }
  unfolding shut after_flush
  channel-close_open =
      channels-release_receivers nil h
        (record after_flush { send_channels = discard h after_flush.send_channels })
        (after_flush.channels h).waiting_receivers refl
      ∙ ap {B = Channel V} (λ (c : Channel V). record c { waiting_receivers = [] })
          (channels-flush_senders nil h shut (w.channels h).waiting_senders
              (ap (λ (c : Channel V). c.waiting_senders) (update_self w.channels h _))
            ∙ ap (λ (c : Channel V). flushed c (w.channels h).waiting_senders)
                (update_self w.channels h _))

  pub channel-close_open_ne : (k : ℕ) → h ≢ k → (close_open nil w h).channels k ≡ w.channels k
  unfolding shut after_flush
  channel-close_open_ne k ne =
      channels-release_receivers_ne nil h k ne
        (record after_flush { send_channels = discard h after_flush.send_channels })
        (after_flush.channels h).waiting_receivers
      ∙ channels-flush_senders_ne nil h k ne shut (w.channels h).waiting_senders
      ∙ update_ne w.channels h k _ ne

  pub state-close_open :
      (c : ℕ) → ((close_open nil w h).coroutines c).state ≡ (w.coroutines c).state
  unfolding shut after_flush
  state-close_open c =
      state-release_receivers nil h c
        (record after_flush { send_channels = discard h after_flush.send_channels })
        (after_flush.channels h).waiting_receivers
      ∙ state-flush_senders nil h c shut (w.channels h).waiting_senders

module _ {V E : Type 0} (nil : V) (w : World V E) (h : ℕ) (valid : IsValid w) where
  close_open-IsValid : IsValid (close_open nil w h)
  close_open-IsValid =
      change-IsValid w (close_open nil w h) h _ valid (channel-close_open nil w h)
        (channel-close_open_ne nil w h) (λ c s. state-close_open nil w h c ∙ s)
        (closed-IsShaped (w.channels h) (valid h).0 (w.channels h).waiting_senders) tt

  send_blocked-IsValid :
      (v : V) (o : Option ℕ)
      → (w.channels h).closed ≡ false
      → (w.channels h).waiting_receivers ≡ []
      → is_full (w.channels h) ≡ true
      → IsValid (send_blocked nil w h v o).0
  send_blocked-IsValid v none open_ rs full = valid
  send_blocked-IsValid v (some c) open_ rs full =
      park_sender-IsValid nil w h valid v c open_ rs full

  send_open-IsValid :
      (v : V) (rs : List ℕ)
      → (w.channels h).closed ≡ false
      → (w.channels h).waiting_receivers ≡ rs
      → IsValid (send_open nil w h v rs).0
  send_open-IsValid v (r ∷ rs) open_ e = hand_over-IsValid nil w h valid v r rs e
  send_open-IsValid v [] open_ e = elim (Bool-cases (is_full (w.channels h))) [
    | inl full ↦
        rw full (send_blocked-IsValid v (same_task w.current_coroutine w.current_task) open_ e full)
    | inr room ↦ rw room (enqueue-IsValid nil w h valid v open_ e room)
  ]

  -- `send` keeps every channel in shape, whether it returns, suspends the caller or raises.
  pub send-IsValid : (v : V) → IsValid (send nil w h v).0
  unfolding send
  send-IsValid v = elim (Bool-cases (w.channels h).closed) [
    | inl shut_ ↦ rw shut_ valid
    | inr open_ ↦ rw open_ (send_open-IsValid v (w.channels h).waiting_receivers open_ refl)
  ]

  recv_empty-IsValid :
      (o : Option ℕ)
      → (w.channels h).closed ≡ false
      → (w.channels h).queue ≡ []
      → IsValid (recv_empty nil w h o).0
  recv_empty-IsValid none open_ q = valid
  recv_empty-IsValid (some c) open_ q = park_receiver-IsValid nil w h valid c open_ q

  recv_from-IsValid : (q : List V) → (w.channels h).queue ≡ q → IsValid (recv_from nil w h q).0
  recv_from-IsValid (v ∷ rest) e = taken-IsValid nil w h valid v rest e
  recv_from-IsValid [] e = elim (Bool-cases (w.channels h).closed) [
    | inl shut_ ↦ rw shut_ valid
    | inr open_ ↦ rw open_ (recv_empty-IsValid w.current_coroutine open_ e)
  ]

  -- `recv` keeps every channel in shape.
  pub recv-IsValid : IsValid (recv nil w h).0
  unfolding recv
  recv-IsValid = recv_from-IsValid (w.channels h).queue refl

  -- `close` keeps every channel in shape.
  pub close-IsValid : IsValid (close nil w h).0
  unfolding close
  close-IsValid = elim (Bool-cases (w.channels h).closed) [
    | inl shut_ ↦ rw shut_ valid
    | inr open_ ↦ rw open_ close_open-IsValid
  ]
