-- ===== src/Retry/Tests.antt =====
-- The retry executor on concrete runs: an operation that raises `n` times and then returns 7, over
-- floats that are numbers.
use Prim.Native.Nat.{min, max, ◌*◌, ◌^◌}
use nodus.Prelude.{
  ℕ, zero, suc, ◌+◌, ◌≤◌, Bool, false, none, some, ◌≡◌, ◌≢◌, refl, [], String, arith,
}
use nodus.Prelude.Dict.{lookup, insert}
use nodus.Retry.{
  at_most_once, at_least_once, classify_exception, is_any, ok, RetryPolicy, BackoffStrategy, Floats,
  compute_backoff_delay, max_attempts_reached, idempotent_replay, raw_delay, post_init,
}
use nodus.Retry.Execution.{
  Run, Attempt, returned, raised, Outcome, result, exhausted, out_of_fuel, execute, Store,
  IdempotencyKey, start,
}
use nodus.Retry.Attempts.{execute-max_attempts}
use nodus.Retry.Guarantee.{execute-guarantee}
use nodus.Retry.Recorded.{execute-replay, IsKeyed}
use nodus.Retry.Delays.{FloatLaws, Holds, delay_le_max}

abbrev numbers : Floats ℕ
numbers = record {
  nought = 0;
  max = max;
  min = min;
  add = λ x y. x + y;
  mul = λ x y. x * y;
  neg = λ x. 0;
  scale = λ x n. some (x * 2 ^ n);
  uniform = λ n x y. x;
}

abbrev flaky : ℕ → ℕ × Attempt ℕ ℕ
flaky zero = (zero, returned 7)
flaky (suc n) = (n, raised n)

abbrev strategy : BackoffStrategy ℕ
strategy = record {
  kind = "bounded_exponential";
  base_delay_seconds = 3;
  max_delay_seconds = some 5;
  jitter_ratio = none;
}

abbrev policy : RetryPolicy ℕ ℕ
policy = record {
  max_attempts = 3;
  backoff = strategy;
  high_risk_no_retry = false;
  retryable_exceptions = [];
  non_retryable_exceptions = [];
}

abbrev key : IdempotencyKey
key = record { action_id = "charge"; operation_name = "pay"; scope = none }

abbrev no_class : ℕ → ℕ → Bool
no_class x c = false

abbrev text_of : ℕ → String
text_of n = "boom"

abbrev fresh : Store ℕ
fresh = []

fresh-IsKeyed : IsKeyed fresh
unfolding lookup
fresh-IsKeyed a r e = ground arith

abbrev run : ℕ → Run ℕ ℕ ℕ × Outcome ℕ
run n =
    execute 0 no_class numbers text_of flaky "pay" policy idempotent_replay (some key) (some fresh)
      n

returns_third : (run 2).1 ≡ result 7
unfolding execute lookup insert classify_exception is_any compute_backoff_delay raw_delay
returns_third = refl

gives_up : (run 5).1 ≡ exhausted 3 max_attempts_reached
unfolding execute lookup insert classify_exception is_any compute_backoff_delay raw_delay
gives_up = refl

number_laws : FloatLaws numbers (λ x y. x ≤ y)
number_laws = record {
  le_max = λ x y. omega arith;
  min_le = λ x y. omega arith;
  le_min = λ z x y h k. omega arith;
  le_scale = λ x y n h e. omega arith;
}

execute-replay_example :
    execute 0 no_class numbers text_of flaky "again" policy idempotent_replay
      (some key)
      (some (run 2).0.records)
      9
    ≡ (start 9 (run 2).0.records, result 7)
execute-replay_example =
    execute-replay 0 no_class numbers text_of flaky "pay" policy key fresh 2 7 flaky "again" policy
      9 fresh-IsKeyed returns_third

policy_accepted : post_init policy ≡ ok policy
unfolding post_init
policy_accepted = refl

execute-max_attempts_example : ((run 5).0.calls ≤ 3) × ((run 5).1 ≢ out_of_fuel)
execute-max_attempts_example =
    execute-max_attempts 0 no_class numbers text_of flaky "pay" policy idempotent_replay (some key)
      (some fresh) 5 policy_accepted

delay_le_max_example : Holds (λ d. d ≤ max 0 5) (compute_backoff_delay numbers strategy 2)
delay_le_max_example = delay_le_max numbers (λ x y. x ≤ y) number_laws strategy 2 5 refl refl

execute-guarantee_example :
    execute 0 no_class numbers text_of flaky "pay" policy at_most_once (some key) (some fresh) 2
    ≡ execute 0 no_class numbers text_of flaky "pay" policy at_least_once (some key) (some fresh) 2
execute-guarantee_example =
    execute-guarantee 0 no_class numbers text_of flaky "pay" policy 2 at_most_once at_least_once
      (some key) (some fresh) refl refl
