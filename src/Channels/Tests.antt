-- ===== src/Channels/Tests.antt =====
-- Runs on one bounded channel, and the theorems of the channels at concrete worlds. A Nodus value
-- is a number here, and 0 stands for nil.
use nodus.Prelude.{ℕ, ◌≡◌, inl, inr, refl, true, false, Option, none, some, List, [], ◌∷◌, arith}
use nodus.Tasks.{World, Channel, Coroutine, State, suspended, finished, schedule}
use nodus.Channels.{
  returned, parked, send, recv, close, park_sender, wake_one_sender, wake_loop, admit,
}
use nodus.Channels.Shape.{IsShaped}
use nodus.Channels.Preserve.{IsValid}
use nodus.Channels.Fifo.{pending, Sent, send-Sent, recv-pending, close-pending}

abbrev pub idle : State → Coroutine ℕ ℕ
idle s = record {
  id = none;
  state = s;
  stack = 0 ∷ [];
  blocked_on = none;
  blocked_reason = none;
  last_result = 0;
  cancelled_error = none;
  failure = none;
  pending_wait_error = none;
  cancelling = none;
  waited_on = false;
  finally_ips = [];
  task_timeout_ms = none;
  task_started_at = none;
}

-- A world in which the task `c` runs and every channel is `ch`.
abbrev pub running_in : Channel ℕ → Option ℕ → World ℕ ℕ
running_in ch c = record {
  coroutines = λ _. idle suspended;
  channels = λ _. ch;
  ready_queue = [];
  timers = [];
  counter = 0;
  sleeping_tasks = [];
  recv_channels = [];
  send_channels = [];
  io_channels = [];
  completed_ids = [];
  completed_tasks = [];
  waiters = λ _. [];
  tasks = λ _. none;
  task_ages = λ _. 0;
  next_id = 1;
  total_tasks_spawned = 0;
  total_resumes = 0;
  spawned_without_loop = 0;
  coroutine_errors = [];
  now_ms = 0;
  current_coroutine = c;
  current_task = c;
  vm_stack = [];
}

abbrev buffer : List ℕ → List ℕ → List (ℕ × ℕ) → Channel ℕ
buffer q rs ss = record {
  maxsize = 1;
  queue = q;
  waiting_receivers = rs;
  waiting_senders = ss;
  closed = false;
}

-- the channel is full, and task 2 is parked with the value 8
abbrev pub full : Channel ℕ
full = buffer (7 ∷ []) [] ((2, 8) ∷ [])

pub full-IsShaped : IsShaped full
full-IsShaped = record {
  apart = inl refl;
  full = inr (omega arith, refl, refl);
  bounded = inr (inr (omega arith));
  quiet = inl refl;
}

full_world-IsValid : IsValid (running_in full (some 3))
full_world-IsValid k = (full-IsShaped, (refl, tt))

send_parks :
    ((send 0 (running_in full (some 3)) 0 9).1 ≡ parked)
    × (((send 0 (running_in full (some 3)) 0 9).0.channels 0).waiting_senders
        ≡ (2, 8) ∷ (3, 9) ∷ [])
unfolding send park_sender
send_parks = (refl, refl)

recv_refills :
    ((recv 0 (running_in full (some 3)) 0).1 ≡ returned 7)
    × (((recv 0 (running_in full (some 3)) 0).0.channels 0).queue ≡ 8 ∷ [])
    × ((recv 0 (running_in full (some 3)) 0).0.ready_queue ≡ 2 ∷ [])
unfolding recv wake_one_sender admit schedule
recv_refills = (refl, refl, refl)

send-Sent_example : Sent 0 (running_in full (some 3)) 0 9 (send 0 (running_in full (some 3)) 0 9)
send-Sent_example = send-Sent 0 (running_in full (some 3)) 0 9 full-IsShaped refl

recv-pending_example :
    ((recv 0 (running_in full (some 3)) 0).1 ≡ returned 7)
    × (pending ((recv 0 (running_in full (some 3)) 0).0.channels 0) ≡ 8 ∷ [])
recv-pending_example =
    recv-pending 0 (running_in full (some 3)) 0 full_world-IsValid 7 (8 ∷ []) refl

close-pending_example :
    (pending ((close 0 (running_in full (some 3)) 0).0.channels 0) ≡ 7 ∷ 8 ∷ [])
    × (((close 0 (running_in full (some 3)) 0).0.channels 0).waiting_senders ≡ [])
    × (((close 0 (running_in full (some 3)) 0).0.channels 0).waiting_receivers ≡ [])
    × (((close 0 (running_in full (some 3)) 0).0.channels 0).closed ≡ true)
close-pending_example = close-pending 0 (running_in full (some 3)) 0 refl

abbrev awaited : World ℕ ℕ
awaited = running_in (buffer [] (4 ∷ 5 ∷ []) []) (some 3)

-- Task 2, parked in `send` with 8, was resumed by hand and has finished: `recv` drops its value.
abbrev resumed_sender : World ℕ ℕ
resumed_sender = record (running_in full (some 3)) { coroutines = λ c. idle finished }

resumed_sender_loses_value :
    ((recv 0 resumed_sender 0).1 ≡ returned 7)
    × (((recv 0 resumed_sender 0).0.channels 0).queue ≡ [])
    × (((recv 0 resumed_sender 0).0.channels 0).waiting_senders ≡ [])
unfolding recv wake_one_sender wake_loop
resumed_sender_loses_value = (refl, refl, refl)
