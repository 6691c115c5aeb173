-- ===== src/Channels/Fifo.antt =====
-- A channel is a first-in first-out queue of the values that have been sent and not yet received:
-- those that are buffered, and behind them those that parked senders hold.
use nodus.Prelude.{
  ℕ, ◌≡◌, ◌≢◌, ◌⊎◌, inl, inr, refl, sym, true, false, Option, none, some, List, [], ◌∷◌, ◌++◌,
  arith, Bool-cases, ◌∙◌, ap, length,
}
use mathlib.Core.List.{append-nil, append_assoc, map-append}
use nodus.Tasks.{World, Channel, suspended, delivered}
use nodus.Tasks.Laws.{update_self}
use nodus.Channels.{
  send_on_closed, full_outside_coroutine, Reply, returned, parked, raised, park_sender, enqueue,
  is_full, send, send_blocked, same_task, recv, recv_from, close,
}
use nodus.Channels.Effects.{values, channels-hand_over, coroutine-hand_over, ready_queue-hand_over}
use nodus.Channels.Loops.{refilled, channel-take}
use nodus.Channels.Shape.{IsShaped}
use nodus.Channels.Preserve.{IsValid, channel-close_open}

-- The values that are yet to be received, the next one first.
abbrev pub pending : {V : Type 0} → Channel V → List V
pending ch = ch.queue ++ values ch.waiting_senders

-- The value `v` stands behind all that were pending, and `send` replied `answer`.
abbrev pub Accepted : {V E : Type 0} → World V E → ℕ → V → World V E × Reply V → Reply V → Type 0
Accepted w h v r answer =
    (pending (r.0.channels h) ≡ pending (w.channels h) ++ v ∷ []) × (r.1 ≡ answer)

-- The four outcomes of a `send` that finds no receiver: the channel is closed; it is full, and the
-- caller cannot be parked; it is full, and the caller is parked; there is room.
abbrev pub Sent : {V E : Type 0} → V → World V E → ℕ → V → World V E × Reply V → Type 0
Sent nil w h v r =
    (((w.channels h).closed ≡ true) × (r ≡ (w, raised send_on_closed)))
    ⊎ (((w.channels h).closed ≡ false)
        × (is_full (w.channels h) ≡ true)
        × (same_task w.current_coroutine w.current_task ≡ none)
        × (r ≡ (w, raised full_outside_coroutine)))
    ⊎ (((w.channels h).closed ≡ false)
        × (is_full (w.channels h) ≡ true)
        × ((c : ℕ) × (same_task w.current_coroutine w.current_task ≡ some c))
        × Accepted w h v r parked)
    ⊎ (((w.channels h).closed ≡ false)
        × (is_full (w.channels h) ≡ false)
        × Accepted w h v r (returned nil))

module _ {V E : Type 0} (nil : V) (w : World V E) (h : ℕ) where
  pending-park_sender :
      (v : V) (c : ℕ)
      → pending ((park_sender nil w h v c).channels h) ≡ pending (w.channels h) ++ v ∷ []
  unfolding park_sender
  pending-park_sender v c =
      rw (update_self w.channels h _, map-append)
        (sym (append_assoc (w.channels h).queue (values (w.channels h).waiting_senders) (v ∷ [])))

  pending-enqueue :
      (v : V)
      → (w.channels h).waiting_senders ≡ []
      → pending ((enqueue nil w h v).channels h) ≡ pending (w.channels h) ++ v ∷ []
  unfolding enqueue
  pending-enqueue v e = rw (update_self w.channels h _, e) (simp append-nil)

  send_blocked-Sent :
      (v : V) (o : Option ℕ)
      → (w.channels h).closed ≡ false
      → is_full (w.channels h) ≡ true
      → same_task w.current_coroutine w.current_task ≡ o
      → Sent nil w h v (send_blocked nil w h v o)
  send_blocked-Sent v none open_ full e = inr (inl (open_, full, e, refl))
  send_blocked-Sent v (some c) open_ full e =
      inr (inr (inl (open_, full, (c, e), (pending-park_sender v c, refl))))

  -- On a channel in shape (`IsShaped`) where nobody waits to receive, `send` raises on a closed
  -- channel and on a full one whose caller cannot be parked, and changes nothing then; otherwise
  -- its value stands behind all that are pending, and the caller is parked exactly when the channel
  -- is full.
  pub send-Sent :
      (v : V)
      → IsShaped (w.channels h)
      → (w.channels h).waiting_receivers ≡ []
      → Sent nil w h v (send nil w h v)
  unfolding send
  send-Sent v s e = elim (Bool-cases (w.channels h).closed) [
    | inl shut ↦ rw shut (inl (refl, refl))
    | inr open_ ↦ elim (Bool-cases (is_full (w.channels h))) [
      | inl full ↦
          rw (open_, e, full) (rw open_ at (rw full at (send_blocked-Sent v _ open_ full refl)))
      | inr room ↦
          rw (open_, e, room)
            (inr (inr (inr (refl, refl, (pending-enqueue v (ground arith), refl)))))
    ]
  ]

  pending-refilled :
      (ch : Channel V) (ss : List (ℕ × V)) → pending (refilled ch ss) ≡ ch.queue ++ values ss
  pending-refilled ch [] = refl
  pending-refilled ch ((s, v) ∷ ss) = append_assoc ch.queue (v ∷ []) (values ss)

  recv_from-pending :
      (valid : IsValid w) (q : List V) (v : V) (rest : List V)
      → (w.channels h).queue ≡ q
      → pending (w.channels h) ≡ v ∷ rest
      → ((recv_from nil w h q).1 ≡ returned v)
        × (pending ((recv_from nil w h q).0.channels h) ≡ rest)
  recv_from-pending valid [] v rest e p =
      let s = (valid h).0 in
      let f : (w.channels h).waiting_senders ≢ [] = λ n. ground (arith, e, n, p) in
      absurd (elim s.full [ inl n ↦ f n | inr (positive, full, _) ↦ omega (arith, ap length e) ])
  recv_from-pending valid (u ∷ q) v rest e p =
      let cons : u ∷ (q ++ values (w.channels h).waiting_senders) ≡ v ∷ rest = rw e at p in
      (
        cc cons,
        ap pending (channel-take nil w h q (valid h).1)
            ∙ pending-refilled (record (w.channels h) { queue = q }) (w.channels h).waiting_senders
            ∙ cc cons,
      )

  -- When values are pending, buffered or held by parked senders, `recv` returns the first of them
  -- at once and leaves the others in order. The channels are valid (`IsValid`): each is in shape,
  -- and every parked sender is suspended.
  pub recv-pending :
      (valid : IsValid w) (v : V) (rest : List V)
      → pending (w.channels h) ≡ v ∷ rest
      → ((recv nil w h).1 ≡ returned v) × (pending ((recv nil w h).0.channels h) ≡ rest)
  unfolding recv
  recv-pending valid v rest p = recv_from-pending valid (w.channels h).queue v rest refl p

  -- `close` keeps every pending value for later calls of `recv`, in order, and leaves nobody
  -- waiting on the channel.
  pub close-pending :
      (w.channels h).closed ≡ false
      → (pending ((close nil w h).0.channels h) ≡ pending (w.channels h))
        × (((close nil w h).0.channels h).waiting_senders ≡ [])
        × (((close nil w h).0.channels h).waiting_receivers ≡ [])
        × (((close nil w h).0.channels h).closed ≡ true)
  unfolding close
  close-pending open_ = rw (open_, channel-close_open nil w h) (append-nil _, refl, refl, refl)

  -- With a receiver waiting, `send` returns at once: the value is on top of the stack of the
  -- first one, which is no longer blocked and stands at the end of the ready queue.
  pub send-receiver :
      (v : V) (r : ℕ) (rs : List ℕ)
      → (w.channels h).closed ≡ false
      → (w.channels h).waiting_receivers ≡ r ∷ rs
      → (w.coroutines r).state ≡ suspended
      → ((send nil w h v).1 ≡ returned nil)
        × ((send nil w h v).0.coroutines r ≡ delivered v (w.coroutines r))
        × ((send nil w h v).0.ready_queue ≡ w.ready_queue ++ r ∷ [])
        × (((send nil w h v).0.channels h).waiting_receivers ≡ rs)
  unfolding send
  send-receiver v r rs open_ e s =
      rw (open_, e)
        (
          refl,
          coroutine-hand_over nil w h v r rs,
          ready_queue-hand_over nil w h v r rs s,
          ap (λ (f : ℕ → Channel V). (f h).waiting_receivers) (channels-hand_over nil w h v r rs)
              ∙ ap (λ (c : Channel V). c.waiting_receivers) (update_self w.channels h _),
        )
