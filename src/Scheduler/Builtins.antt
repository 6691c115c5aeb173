-- ===== src/Scheduler/Builtins.antt =====
-- src/nodus/builtins/coroutine.py: `spawn`, `spawn_after`, `sleep`, `sleep_until`, `channel`,
-- `coroutine_status` and `run_loop`, for a value that is a coroutine. The module context and the VM
-- that a spawned coroutine is given are left out: nothing here reads them.
use mathlib.Core.Path.{subst}
use nodus.Prelude.{ℕ, ◌+◌, ◌-◌, ◌≡◌, ap, ◌∙◌, Option, none, some, List, [], ◌∷◌, arith}
use nodus.Tasks.{World, Coroutine, Channel, State, set_coroutine}
use nodus.Tasks.Laws.{update_self}
use nodus.Channels.{new_channel}
use nodus.Waiting.{ensure_metadata, spawn}
use nodus.Scheduler.{ℤ, pos, clamp, schedule_sleep, schedule_delay}
use nodus.Scheduler.Turn.{Host, Turn, leaves, run_loop}

-- an argument: an int, a float, here one without a fraction, or a value that is neither or is a bool
pub data Argument : Type 0 where
  int_of float_of : ℤ → Argument
  no_number : Argument

abbrev number : Argument → Option ℤ
number (int_of n) = some n
number (float_of n) = some n
number no_number = none

-- sleep(ms): the milliseconds of its SleepRequest, and `none` for the type error
unfoldable pub sleep : Argument → Option ℕ
sleep a = elim (number a) [ none ↦ none | some ms ↦ some (clamp ms) ]

module _ {V E : Type 0} where
  -- sleep_until(deadline)
  unfoldable pub sleep_until : World V E → Argument → Option ℕ
  sleep_until w a = elim (number a) [ none ↦ none | some t ↦ some (clamp t - w.now_ms) ]

  -- `if coro_timeout is not None`
  abbrev limited : Option ℕ → Coroutine V E → Coroutine V E
  limited none x = x
  limited (some ms) x = record x { task_timeout_ms = some ms }

  -- spawn(coroutine), on a VM with the given `coroutine_timeout_ms`
  unfoldable pub spawn_builtin : Option ℕ → World V E → ℕ → World V E
  spawn_builtin timeout w c = spawn (set_coroutine w c (limited timeout (w.coroutines c))) c

  -- spawn_after(ms, coroutine)
  unfoldable pub spawn_after : World V E → Argument → ℕ → Option (World V E)
  spawn_after w a c =
      let w₁ = record w { spawned_without_loop = w.spawned_without_loop + 1 } in
      elim (number a) [ none ↦ none | some ms ↦ some (schedule_delay w₁ c (pos (clamp ms))) ]

  unfoldable pub coroutine_status : World V E → ℕ → State
  coroutine_status w c = (w.coroutines c).state

-- the list of the errors, if there is one
abbrev reported : {E : Type 0} → List E → Option (List E)
reported [] = none
reported (e ∷ es) = some (e ∷ es)

-- channel(maxsize), and `none` for the value error
unfoldable pub channel : {V : Type 0} → Argument → Option (Channel V)
channel (int_of (pos n)) = some (new_channel n)
channel _ = none

module _ {V E : Type 0} (host : Host V E) where
  abbrev loop_result : Turn V E → Turn V E × Option (List E)
  loop_result (leaves w) = (leaves w, reported w.coroutine_errors)
  loop_result t = (t, none)

  -- run_loop(), for at most `n` passes: how the loop ended, and the errors that are returned
  unfoldable pub run_loop_builtin : ℕ → World V E → Turn V E × Option (List E)
  run_loop_builtin n w = loop_result (
      run_loop (record host { until = none; on_complete = none }) n
        (record w { coroutine_errors = [] }))

module _ {V E : Type 0} (w : World V E) (c : ℕ) where
  timeout-ensure :
      ((ensure_metadata w c).coroutines c).task_timeout_ms ≡ (w.coroutines c).task_timeout_ms
  unfolding ensure_metadata
  timeout-ensure = ground arith

  timeout-spawn : ((spawn w c).coroutines c).task_timeout_ms ≡ (w.coroutines c).task_timeout_ms
  unfolding spawn
  timeout-spawn = ground (arith, timeout-ensure)

  timeout-schedule_delay :
      (ms : ℤ)
      → ((schedule_delay w c ms).coroutines c).task_timeout_ms ≡ (w.coroutines c).task_timeout_ms
  unfolding schedule_delay schedule_sleep
  timeout-schedule_delay ms = ground (arith, timeout-ensure)

-- What a call gives keeps the timeout of `c`.
abbrev KeepsTimeout : {V E : Type 0} → World V E → ℕ → Option (World V E) → Type 0
KeepsTimeout w c none = Unit
KeepsTimeout w c (some w₁) = (w₁.coroutines c).task_timeout_ms ≡ (w.coroutines c).task_timeout_ms

spawn_after-KeepsTimeout :
    {V E : Type 0} (w : World V E) (c : ℕ) (a : Argument) → KeepsTimeout w c (spawn_after w a c)
unfolding spawn_after
spawn_after-KeepsTimeout w c (int_of ms) = timeout-schedule_delay _ c (pos (clamp ms))
spawn_after-KeepsTimeout w c (float_of ms) = timeout-schedule_delay _ c (pos (clamp ms))
spawn_after-KeepsTimeout w c no_number = tt

-- The VM's timeout for coroutines is put on every coroutine that `spawn` starts, and on none that
-- `spawn_after` starts: that one keeps whatever timeout it had.
pub spawn_after-unlimited :
    {V E : Type 0} (w w₁ : World V E) (c limit : ℕ) (a : Argument)
    → spawn_after w a c ≡ some w₁
    → (((spawn_builtin (some limit) w c).coroutines c).task_timeout_ms ≡ some limit)
      × ((w₁.coroutines c).task_timeout_ms ≡ (w.coroutines c).task_timeout_ms)
unfolding spawn_builtin
spawn_after-unlimited w w₁ c limit a h = (
  timeout-spawn _ c ∙ ap (λ x. x.task_timeout_ms) (update_self w.coroutines c _),
  subst (KeepsTimeout w c) h (spawn_after-KeepsTimeout w c a),
)
