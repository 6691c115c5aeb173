-- ===== src/Channels.antt =====
-- src/nodus/builtins/coroutine.py: `send`, `recv`, `close` and `_wake_one_sender`, on the channels
-- of src/nodus/runtime/channel.py. The events that they emit and the saved frames of a coroutine
-- that suspends are left out: nothing here reads them.
pub mod Effects
pub mod Tests
pub mod Fifo
pub mod Loops
pub mod Preserve
pub mod Shape
use nodus.Prelude.{
  ℕ, suc, ◌+◌, Bool, true, false, not, Option, none, some, List, [], ◌∷◌, ◌++◌, ltb, leb, ◌==◌,
  if◌then◌else◌, ◌&&◌, length,
}
use nodus.Tasks.{
  World, Coroutine, Channel, State, suspended, Reason, channel_send, channel_recv, Ref, update, add,
  discard, contains, is_suspended, set_channel, set_coroutine, schedule, delivered, unblocked,
}

pub data Error : Type 0 where
  send_on_closed full_outside_coroutine recv_outside_coroutine bad_maxsize : Error

-- What a builtin does: return a value, suspend the coroutine that called it, or raise.
pub data Reply (V : Type 0) : Type 0 where
  returned : V → Reply V
  parked : Reply V
  raised : Error → Reply V

abbrev pub is_empty {ℓ} : {A : Type ℓ} → List A → Bool
is_empty [] = true
is_empty (x ∷ xs) = false

-- channel(maxsize), for an integer that is not negative
unfoldable pub new_channel : {V : Type 0} → ℕ → Channel V
new_channel n = record {
  maxsize = n;
  queue = [];
  waiting_receivers = [];
  waiting_senders = [];
  closed = false;
}

-- the coroutine that can be parked: the VM's, if it is the one that the scheduler drives
abbrev pub same_task : Option ℕ → Option ℕ → Option ℕ
same_task none t = none
same_task (some c) none = none
same_task (some c) (some t) = if c == t then some c else none

abbrev pub is_full : {V : Type 0} → Channel V → Bool
is_full ch = ltb 0 ch.maxsize && leb ch.maxsize (length ch.queue)

module _ {V E : Type 0} (nil : V) where
  -- `vm.stack.append(None)` and `save_current_coroutine_state`: the coroutine keeps the VM's stack
  abbrev pub suspend_on : World V E → ℕ → ℕ → Reason → World V E
  suspend_on w c h reason = record w {
    coroutines = update w.coroutines c (record (w.coroutines c) {
      state = suspended;
      blocked_on = some (Ref.channel h);
      blocked_reason = some reason;
      stack = nil ∷ w.vm_stack;
    });
    vm_stack = nil ∷ w.vm_stack;
  }

  -- a receiver is waiting: the value goes to the first one, past the queue
  unfoldable pub hand_over : World V E → ℕ → V → ℕ → List ℕ → World V E
  hand_over w h v r rs =
      let w₁ = set_channel w h (record (w.channels h) { waiting_receivers = rs }) in
      let w₂ = schedule (set_coroutine w₁ r (delivered v (w.coroutines r))) r in
      if is_empty rs then record w₂ { recv_channels = discard h w₂.recv_channels } else w₂

  -- the channel is full: the sender is parked with its value
  unfoldable pub park_sender : World V E → ℕ → V → ℕ → World V E
  park_sender w h v c =
      let w₁ = suspend_on w c h channel_send in
      let ch = w.channels h in
      record w₁ {
        channels =
            update w.channels h (record ch { waiting_senders = ch.waiting_senders ++ (c, v) ∷ [] });
        send_channels = add h w.send_channels;
      }

  unfoldable pub enqueue : World V E → ℕ → V → World V E
  enqueue w h v =
      let ch = w.channels h in set_channel w h (record ch { queue = ch.queue ++ v ∷ [] })

  abbrev pub send_blocked : World V E → ℕ → V → Option ℕ → World V E × Reply V
  send_blocked w h v none = (w, raised full_outside_coroutine)
  send_blocked w h v (some c) = (park_sender w h v c, parked)

  -- send on an open channel, by its waiting receivers
  abbrev pub send_open : World V E → ℕ → V → List ℕ → World V E × Reply V
  send_open w h v (r ∷ rs) = (hand_over w h v r rs, returned nil)
  send_open w h v [] =
      if is_full (w.channels h)
      then send_blocked w h v (same_task w.current_coroutine w.current_task)
      else (enqueue w h v, returned nil)

  unfoldable pub send : World V E → ℕ → V → World V E × Reply V
  send w h v =
      if (w.channels h).closed
      then (w, raised send_on_closed)
      else send_open w h v (w.channels h).waiting_receivers

  -- a parked sender `s` leaves the channel with its value `v` in the queue
  unfoldable pub admit : World V E → ℕ → ℕ → V → List (ℕ × V) → World V E
  admit w h s v rest =
      let ch = w.channels h in
      let w₁ = set_channel w h (record ch { waiting_senders = rest; queue = ch.queue ++ v ∷ [] }) in
      schedule (set_coroutine w₁ s (unblocked (w.coroutines s))) s

  -- the loop of `_wake_one_sender`: it stops at the first sender that is suspended
  unfoldable pub wake_loop : World V E → ℕ → List (ℕ × V) → World V E
  wake_loop w h [] = set_channel w h (record (w.channels h) { waiting_senders = [] })
  wake_loop w h ((s, v) ∷ rest) =
      let next = wake_loop w h rest in
      if is_suspended (w.coroutines s).state then admit w h s v rest else next

  unfoldable pub wake_one_sender : World V E → ℕ → World V E
  unfolding wake_loop
  wake_one_sender w h =
      let w₁ = wake_loop w h (w.channels h).waiting_senders in
      if is_empty (w₁.channels h).waiting_senders
      then record w₁ { send_channels = discard h w₁.send_channels }
      else w₁

  unfoldable pub park_receiver : World V E → ℕ → ℕ → World V E
  park_receiver w h c =
      let w₁ = suspend_on w c h channel_recv in
      let ch = w.channels h in
      record w₁ {
        channels =
            update w.channels h (record ch { waiting_receivers = ch.waiting_receivers ++ c ∷ [] });
        recv_channels = add h w.recv_channels;
      }

  abbrev pub recv_empty : World V E → ℕ → Option ℕ → World V E × Reply V
  recv_empty w h none = (w, raised recv_outside_coroutine)
  recv_empty w h (some c) = (park_receiver w h c, parked)

  abbrev pub recv_from : World V E → ℕ → List V → World V E × Reply V
  recv_from w h (v ∷ rest) =
      (wake_one_sender (set_channel w h (record (w.channels h) { queue = rest })) h, returned v)
  recv_from w h [] =
      if (w.channels h).closed then (w, returned nil) else recv_empty w h w.current_coroutine

  unfoldable pub recv : World V E → ℕ → World V E × Reply V
  recv w h = recv_from w h (w.channels h).queue

  -- the loop of `close` over the parked senders: their values are flushed into the queue
  unfoldable pub flush_one : World V E → ℕ → ℕ → V → List (ℕ × V) → World V E
  unfolding admit
  flush_one w h s v rest =
      let ch = w.channels h in
      if is_suspended (w.coroutines s).state
      then admit w h s v rest
      else set_channel w h (record ch { waiting_senders = rest; queue = ch.queue ++ v ∷ [] })

  unfoldable pub flush_senders : World V E → ℕ → List (ℕ × V) → World V E
  flush_senders w h [] = w
  flush_senders w h ((s, v) ∷ rest) = flush_senders (flush_one w h s v rest) h rest

  -- the loop of `close` over the parked receivers: each is handed nil
  unfoldable pub release_one : World V E → ℕ → ℕ → List ℕ → World V E
  release_one w h r rest =
      let w₁ = set_channel w h (record (w.channels h) { waiting_receivers = rest }) in
      if is_suspended (w.coroutines r).state
      then schedule (set_coroutine w₁ r (delivered nil (w.coroutines r))) r
      else w₁

  unfoldable pub release_receivers : World V E → ℕ → List ℕ → World V E
  release_receivers w h [] = w
  release_receivers w h (r ∷ rest) = release_receivers (release_one w h r rest) h rest

  abbrev pub close_open : World V E → ℕ → World V E
  close_open w h =
      let w₁ = set_channel w h (record (w.channels h) { closed = true }) in
      let w₂ = flush_senders w₁ h (w.channels h).waiting_senders in
      let w₃ = record w₂ { send_channels = discard h w₂.send_channels } in
      let w₄ = release_receivers w₃ h (w₃.channels h).waiting_receivers in
      record w₄ { recv_channels = discard h w₄.recv_channels }

  unfoldable pub close : World V E → ℕ → World V E × Reply V
  close w h = if (w.channels h).closed then (w, returned nil) else (close_open w h, returned nil)
