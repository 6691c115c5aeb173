-- ===== src/Channels/Shape.antt =====
-- The shape of a channel between operations, and the changes of a channel that keep it.
use nodus.Prelude.{
  ℕ, ◌≡◌, ◌≤◌, ◌<◌, ◌⊎◌, inl, inr, refl, true, false, List, [], ◌∷◌, ◌++◌, arith, length,
  length-concat,
}
use nodus.Tasks.{Channel}
use nodus.Channels.{is_full, new_channel}
use nodus.Channels.Loops.{flushed, refilled}

-- Waiting receivers and buffered values or waiting senders do not coexist; senders wait only on a
-- bounded open channel whose queue is full; the queue of an open bounded channel keeps its bound;
-- nobody waits on a closed channel.
pub record IsShaped {V : Type 0} (ch : Channel V) : Type 0 where
  pub apart : (ch.waiting_receivers ≡ []) ⊎ ((ch.queue ≡ []) × (ch.waiting_senders ≡ []))
  pub full :
      (ch.waiting_senders ≡ [])
      ⊎ ((0 < ch.maxsize) × (length ch.queue ≡ ch.maxsize) × (ch.closed ≡ false))
  pub bounded : (ch.closed ≡ true) ⊎ (ch.maxsize ≡ 0) ⊎ (length ch.queue ≤ ch.maxsize)
  pub quiet : (ch.closed ≡ false) ⊎ (ch.waiting_receivers ≡ [])

pub new_channel-IsShaped : {V : Type 0} (n : ℕ) → IsShaped (new_channel {V = V} n)
unfolding new_channel
new_channel-IsShaped n = ground arith

module _ {V : Type 0} (ch : Channel V) (s : IsShaped ch) where
  pub handed-IsShaped :
      (r : ℕ) (rs : List ℕ)
      → ch.waiting_receivers ≡ r ∷ rs
      → IsShaped (record ch { waiting_receivers = rs })
  handed-IsShaped r rs e = ground arith

  pub parked_sender-IsShaped :
      (c : ℕ) (v : V)
      → ch.closed ≡ false
      → ch.waiting_receivers ≡ []
      → is_full ch ≡ true
      → IsShaped (record ch { waiting_senders = ch.waiting_senders ++ (c, v) ∷ [] })
  parked_sender-IsShaped c v open_ rs e = record {
    apart = inl rs;
    full = inr (ground arith, ground arith, open_);
    bounded = s.bounded;
    quiet = inl open_;
  }

  pub enqueued-IsShaped :
      (v : V)
      → ch.closed ≡ false
      → ch.waiting_receivers ≡ []
      → is_full ch ≡ false
      → IsShaped (record ch { queue = ch.queue ++ v ∷ [] })
  enqueued-IsShaped v open_ rs e = record {
    apart = inl rs;
    full = inl (ground arith);
    bounded = ground (arith, length-concat ch.queue v);
    quiet = inl open_;
  }

  pub parked_receiver-IsShaped :
      (c : ℕ)
      → ch.closed ≡ false
      → ch.queue ≡ []
      → IsShaped (record ch { waiting_receivers = ch.waiting_receivers ++ c ∷ [] })
  parked_receiver-IsShaped c open_ q = record {
    apart = inr (q, ground arith);
    full = s.full;
    bounded = s.bounded;
    quiet = inl open_;
  }

  pub refilled-IsShaped :
      (v : V) (rest : List V) (ss : List (ℕ × V))
      → ch.queue ≡ v ∷ rest
      → ch.waiting_senders ≡ ss
      → IsShaped (refilled (record ch { queue = rest }) ss)
  refilled-IsShaped v rest [] q e = record {
    apart = ground arith;
    full = inl refl;
    bounded = ground arith;
    quiet = s.quiet;
  }
  refilled-IsShaped v rest ((c, u) ∷ ss) q e = record {
    apart = ground arith;
    full = ground (arith, length-concat rest u);
    bounded = ground (arith, length-concat rest u);
    quiet = s.quiet;
  }

  pub closed-IsShaped :
      (ss : List (ℕ × V))
      → IsShaped (record (flushed (record ch { closed = true }) ss) { waiting_receivers = [] })
  closed-IsShaped ss = record {
    apart = inl refl;
    full = inl refl;
    bounded = inl refl;
    quiet = inr refl;
  }
