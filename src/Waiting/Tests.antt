-- ===== src/Waiting/Tests.antt =====
-- A world in which task 2 waits to send on a full channel, has a timer and stands in the ready queue,
-- and tasks 2 and 4 wait for the task with the id 5.
use nodus.Prelude.{ℕ, ◌≡◌, ◌≢◌, refl, none, some, [], ◌∷◌, All}
use nodus.Tasks.{World, suspended, Ref, contains, add}
use nodus.Channels.Preserve.{IsValid}
use nodus.Channels.Tests.{idle, running_in, full, full-IsShaped}
use nodus.Waiting.{
  unpark, remove, without, release_waiters, release_loop, release_waiter, mark_completed,
}
use nodus.Channels.{send, recv, close}
use nodus.Waiting.Unpark.{channels-IsValid, count, Gone, unpark-clears}

abbrev world : World ℕ ℕ
world = record (running_in full (some 3)) {
  coroutines = λ _. record (idle suspended) {
    id = some 5;
    blocked_on = some (Ref.channel 0);
    last_result = 7;
  };
  ready_queue = 3 ∷ 2 ∷ [];
  timers = record { wake = 9; seq = 1; sleeper = 2 } ∷ [];
  sleeping_tasks = 5 ∷ [];
  waiters = λ _. 2 ∷ 4 ∷ [];
}

world-IsValid : IsValid world
world-IsValid k = (full-IsShaped, (refl, tt))

leaves_everything :
    (((unpark world 2).channels 0).waiting_senders ≡ [])
    × ((unpark world 2).timers ≡ [])
    × ((unpark world 2).ready_queue ≡ 3 ∷ [])
unfolding unpark remove without
leaves_everything = (refl, refl, refl)

wakes_both : (mark_completed world 1).ready_queue ≡ 3 ∷ 2 ∷ 2 ∷ 4 ∷ []
unfolding mark_completed contains add release_waiters release_loop release_waiter
wakes_both = refl

unpark-clears_example :
    All (λ t. t.sleeper ≢ 2) (unpark world 2).timers
    × Gone (unpark world 2) 2 (some (Ref.channel 0))
    × (((unpark world 2).coroutines 2).blocked_on ≡ none)
    × (count 2 (unpark world 2).ready_queue ≡ 0)
unpark-clears_example = unpark-clears world 2

channels-IsValid_example :
    IsValid (send 0 world 0 9).0
    × IsValid (recv 0 world 0).0
    × IsValid (close 0 world 0).0
    × IsValid (unpark world 2)
channels-IsValid_example = channels-IsValid 0 world 0 9 2 world-IsValid
