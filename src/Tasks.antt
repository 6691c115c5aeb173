-- ===== src/Tasks.antt =====
-- src/nodus/runtime/coroutine.py, channel.py and the fields of `Scheduler` (scheduler.py): the
-- shared state of tasks and channels. Python's object identity of a coroutine or a channel is a
-- number, and the objects stand in two stores of `World`. `V` is the type of Nodus values and `E`
-- that of the errors that a task can fail with.
pub mod Laws
use nodus.Prelude.{
  ℕ, suc, ◌+◌, Bool, true, false, Option, none, some, List, [], ◌∷◌, ◌++◌, ◌==◌, if◌then◌else◌,
  ◌||◌, ◌&&◌,
}

pub data State : Type 0 where
  created running suspended finished : State

-- BLOCKED_REASONS
pub data Reason : Type 0 where
  channel_send channel_recv http_async subprocess_async subprocess_wait_async agent_async
        task_wait :
      Reason

-- what `blocked_on` points at
pub data Ref : Type 0 where
  channel task : ℕ → Ref

pub record Coroutine (V E : Type 0) : Type 0 where
  pub id : Option ℕ
  pub state : State
  -- the top of the stack first
  pub stack : List V
  pub blocked_on : Option Ref
  pub blocked_reason : Option Reason
  pub last_result : V
  pub cancelled_error : Option E
  pub failure : Option E
  pub pending_wait_error : Option E
  pub cancelling : Option E
  pub waited_on : Bool
  -- the third place of each entry of `handler_stack`: where its `finally` block starts, or 0
  pub finally_ips : List ℕ
  pub task_timeout_ms : Option ℕ
  pub task_started_at : Option ℕ

pub record Channel (V : Type 0) : Type 0 where
  pub maxsize : ℕ
  pub queue : List V
  pub waiting_receivers : List ℕ
  pub waiting_senders : List (ℕ × V)
  pub closed : Bool

pub record Timer : Type 0 where
  pub wake : ℕ
  pub seq : ℕ
  pub sleeper : ℕ

pub record World (V E : Type 0) : Type 0 where
  pub coroutines : ℕ → Coroutine V E
  pub channels : ℕ → Channel V
  pub ready_queue : List ℕ
  pub timers : List Timer
  -- `_counter`, the sequence number of the last timer
  pub counter : ℕ
  -- the sets of the scheduler, without repetition
  pub sleeping_tasks : List ℕ
  pub recv_channels : List ℕ
  pub send_channels : List ℕ
  pub io_channels : List ℕ
  pub completed_ids : List ℕ
  pub completed_tasks : List ℕ
  -- `_waiters`, by the id of the task that is waited for
  pub waiters : ℕ → List ℕ
  pub tasks : ℕ → Option ℕ
  pub task_ages : ℕ → ℕ
  pub next_id : ℕ
  pub total_tasks_spawned : ℕ
  pub total_resumes : ℕ
  pub spawned_without_loop : ℕ
  pub coroutine_errors : List E
  -- what `time_source.now_ms` reads
  pub now_ms : ℕ
  -- the VM's `current_coroutine` and the scheduler's `current_task`
  pub current_coroutine : Option ℕ
  pub current_task : Option ℕ
  -- the VM's operand stack, the top first
  pub vm_stack : List V

abbrev pub update {ℓ} : {A : Type ℓ} → (ℕ → A) → ℕ → A → ℕ → A
update f i a j = if i == j then a else f j

abbrev pub is_finished : State → Bool
is_finished finished = true
is_finished _ = false

abbrev pub is_suspended : State → Bool
is_suspended suspended = true
is_suspended _ = false

-- a set as a list: `in`, `add`, `discard`
unfoldable pub contains : List ℕ → ℕ → Bool
contains [] a = false
contains (x ∷ xs) a = (x == a) || contains xs a

unfoldable pub discard : ℕ → List ℕ → List ℕ
discard a [] = []
discard a (x ∷ xs) = let rest = discard a xs in if x == a then rest else x ∷ rest

unfoldable pub add : ℕ → List ℕ → List ℕ
add a xs = if contains xs a then xs else a ∷ xs

-- `if c.stack: c.stack[-1] = value`
abbrev pub set_top {ℓ} : {A : Type ℓ} → A → List A → List A
set_top v [] = []
set_top v (x ∷ s) = v ∷ s

-- `if c.id is not None: task_ages[c.id] = n`
abbrev pub age : (ℕ → ℕ) → Option ℕ → ℕ → ℕ → ℕ
age ages none n = ages
age ages (some i) n = update ages i n

module _ {V E : Type 0} where
  abbrev pub set_coroutine : World V E → ℕ → Coroutine V E → World V E
  set_coroutine w c x = record w { coroutines = update w.coroutines c x }

  abbrev pub set_channel : World V E → ℕ → Channel V → World V E
  set_channel w h x = record w { channels = update w.channels h x }

  -- Scheduler.schedule
  unfoldable pub schedule : World V E → ℕ → World V E
  schedule w c = if is_finished (w.coroutines c).state then w else record w {
    ready_queue = w.ready_queue ++ c ∷ [];
    task_ages = age w.task_ages (w.coroutines c).id w.total_resumes;
  }

  -- The three assignments that precede the scheduling of a receiver: the value on top of its
  -- stack, and no longer blocked.
  abbrev pub delivered : V → Coroutine V E → Coroutine V E
  delivered v x = record x { stack = set_top v x.stack; blocked_on = none; blocked_reason = none }

  abbrev pub unblocked : Coroutine V E → Coroutine V E
  unblocked x = record x { blocked_on = none; blocked_reason = none }
