-- ===== src/Channels/Loops.antt =====
-- The loops of `recv` and `close` over the coroutines that are parked on a channel.
use mathlib.Core.List.{append-nil, append_assoc}
use nodus.Prelude.{
  ℕ, ◌≡◌, ◌≢◌, refl, Bool, true, false, List, [], ◌∷◌, ◌++◌, arith, if◌then◌else◌, ◌∙◌, ap,
}
use nodus.Tasks.{World, Channel, update, set_channel, discard}
use nodus.Tasks.Laws.{update_self, update_ne}
use nodus.Channels.{
  wake_loop, wake_one_sender, flush_one, flush_senders, release_one, release_receivers, is_empty,
}
use nodus.Channels.Effects.{
  SendersSuspended, values, channels-admit, channels-flush_one, channels-release_one, state-admit,
  state-flush_one, state-release_one,
}

-- The channel after its parked senders have been let in.
abbrev pub flushed : {V : Type 0} → Channel V → List (ℕ × V) → Channel V
flushed ch ss = record ch { waiting_senders = []; queue = ch.queue ++ values ss }

module _ {V E : Type 0} (nil : V) (h : ℕ) where
  pub channels-flush_senders :
      (w : World V E) (ss : List (ℕ × V))
      → (w.channels h).waiting_senders ≡ ss
      → (flush_senders nil w h ss).channels h ≡ flushed (w.channels h) ss
  unfolding flush_senders
  channels-flush_senders w [] e = rw append-nil (ground arith)
  channels-flush_senders w ((s, v) ∷ ss) e =
      let w' = flush_one nil w h s v ss in
      let at_h : w'.channels h
          ≡ record (w.channels h) { waiting_senders = ss; queue = (w.channels h).queue ++ v ∷ [] } =
        rw channels-flush_one (update_self w.channels h _) in
      channels-flush_senders w' ss (ap (λ (c : Channel V). c.waiting_senders) at_h)
      ∙ ap (λ (c : Channel V). flushed c ss) at_h
      ∙ (rw append_assoc)

  pub channels-flush_senders_ne :
      (k : ℕ)
      → h ≢ k
      → (w : World V E) (ss : List (ℕ × V)) → (flush_senders nil w h ss).channels k ≡ w.channels k
  unfolding flush_senders
  channels-flush_senders_ne k ne w [] = refl
  channels-flush_senders_ne k ne w ((s, v) ∷ ss) =
      channels-flush_senders_ne k ne (flush_one nil w h s v ss) ss
      ∙ (rw channels-flush_one (update_ne w.channels h k _ ne))

  pub state-flush_senders :
      (c : ℕ) (w : World V E) (ss : List (ℕ × V))
      → ((flush_senders nil w h ss).coroutines c).state ≡ (w.coroutines c).state
  unfolding flush_senders
  state-flush_senders c w [] = refl
  state-flush_senders c w ((s, v) ∷ ss) =
      state-flush_senders c (flush_one nil w h s v ss) ss ∙ state-flush_one nil w h s v ss c

  pub channels-release_receivers :
      (w : World V E) (rs : List ℕ)
      → (w.channels h).waiting_receivers ≡ rs
      → (release_receivers nil w h rs).channels h ≡ record (w.channels h) { waiting_receivers = [] }
  unfolding release_receivers
  channels-release_receivers w [] e = ground arith
  channels-release_receivers w (r ∷ rs) e =
      let w' = release_one nil w h r rs in
      let at_h : w'.channels h ≡ record (w.channels h) { waiting_receivers = rs } =
        rw channels-release_one (update_self w.channels h _) in
      channels-release_receivers w' rs (ap (λ (c : Channel V). c.waiting_receivers) at_h)
      ∙ ap {B = Channel V} (λ (c : Channel V). record c { waiting_receivers = [] }) at_h

  pub channels-release_receivers_ne :
      (k : ℕ)
      → h ≢ k
      → (w : World V E) (rs : List ℕ) → (release_receivers nil w h rs).channels k ≡ w.channels k
  unfolding release_receivers
  channels-release_receivers_ne k ne w [] = refl
  channels-release_receivers_ne k ne w (r ∷ rs) =
      channels-release_receivers_ne k ne (release_one nil w h r rs) rs
      ∙ (rw channels-release_one (update_ne w.channels h k _ ne))

  pub state-release_receivers :
      (c : ℕ) (w : World V E) (rs : List ℕ)
      → ((release_receivers nil w h rs).coroutines c).state ≡ (w.coroutines c).state
  unfolding release_receivers
  state-release_receivers c w [] = refl
  state-release_receivers c w (r ∷ rs) =
      state-release_receivers c (release_one nil w h r rs) rs ∙ state-release_one nil w h r rs c

-- The channel after a slot has been freed: the first parked sender's value moves in.
abbrev pub refilled : {V : Type 0} → Channel V → List (ℕ × V) → Channel V
refilled ch [] = record ch { waiting_senders = [] }
refilled ch ((s, v) ∷ rest) = record ch { waiting_senders = rest; queue = ch.queue ++ v ∷ [] }

module _ {V E : Type 0} (nil : V) (w : World V E) (h : ℕ) where
  pub channels-wake_loop :
      (ss : List (ℕ × V))
      → SendersSuspended w ss
      → (wake_loop nil w h ss).channels ≡ update w.channels h (refilled (w.channels h) ss)
  unfolding wake_loop
  channels-wake_loop [] a = refl
  channels-wake_loop ((s, v) ∷ ss) a = rw (a.0, channels-admit)

  pub state-wake_loop :
      (c : ℕ) (ss : List (ℕ × V))
      → ((wake_loop nil w h ss).coroutines c).state ≡ (w.coroutines c).state
  unfolding wake_loop
  state-wake_loop c [] = refl
  state-wake_loop c ((s, v) ∷ ss) =
      ground (arith, state-wake_loop c ss, state-admit nil w h s v ss c)

  channels_if :
      (b : Bool) (w₁ : World V E)
      → (if b then record w₁ { send_channels = discard h w₁.send_channels } else w₁).channels
        ≡ w₁.channels
  channels_if true w₁ = refl
  channels_if false w₁ = refl

  state_if :
      (b : Bool) (w₁ : World V E) (c : ℕ)
      → ((if b then record w₁ { send_channels = discard h w₁.send_channels } else w₁).coroutines
          c).state
        ≡ (w₁.coroutines c).state
  state_if true w₁ c = refl
  state_if false w₁ c = refl

  pub channels-wake_one_sender :
      SendersSuspended w (w.channels h).waiting_senders
      → (wake_one_sender nil w h).channels
        ≡ update w.channels h (refilled (w.channels h) (w.channels h).waiting_senders)
  unfolding wake_one_sender
  channels-wake_one_sender a = channels_if _ _ ∙ channels-wake_loop (w.channels h).waiting_senders a

  pub state-wake_one_sender :
      (c : ℕ) → ((wake_one_sender nil w h).coroutines c).state ≡ (w.coroutines c).state
  unfolding wake_one_sender
  state-wake_one_sender c =
      let w₁ = wake_loop nil w h (w.channels h).waiting_senders in
      state_if (is_empty (w₁.channels h).waiting_senders) w₁ c
      ∙ state-wake_loop c (w.channels h).waiting_senders

module _ {V E : Type 0} (nil : V) (w : World V E) (h : ℕ) where
  -- the channel of `recv` before a sender is woken
  abbrev pub taken : List V → World V E
  taken rest = set_channel w h (record (w.channels h) { queue = rest })

  channels-take :
      (rest : List V)
      → SendersSuspended w (w.channels h).waiting_senders
      → (wake_one_sender nil (taken rest) h).channels
        ≡ update
            (taken rest).channels
            h
            (refilled ((taken rest).channels h) ((taken rest).channels h).waiting_senders)
  channels-take rest a =
      channels-wake_one_sender nil (taken rest) h
        (rw (update_self w.channels h (record (w.channels h) { queue = rest })) a)

  pub channel-take :
      (rest : List V)
      → SendersSuspended w (w.channels h).waiting_senders
      → (wake_one_sender nil (taken rest) h).channels h
        ≡ refilled (record (w.channels h) { queue = rest }) (w.channels h).waiting_senders
  channel-take rest a =
      ap (λ (f : ℕ → Channel V). f h) (channels-take rest a)
      ∙ update_self (taken rest).channels h _
      ∙ (rw (update_self w.channels h (record (w.channels h) { queue = rest })))

  pub channel-take_ne :
      (k : ℕ) (rest : List V)
      → h ≢ k
      → SendersSuspended w (w.channels h).waiting_senders
      → (wake_one_sender nil (taken rest) h).channels k ≡ w.channels k
  channel-take_ne k rest ne a =
      ap (λ (f : ℕ → Channel V). f k) (channels-take rest a)
      ∙ update_ne (taken rest).channels h k _ ne
      ∙ update_ne w.channels h k _ ne
