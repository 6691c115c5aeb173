-- ===== src/Retry.antt =====
-- packages/nodus-retry/src/nodus_retry: backoff.py, classifier.py, models.py, stores.py and
-- `RetryExecutor` of executors.py. `X` is the type of exceptions, `C` that of exception classes, `V`
-- that of results and `F` that of floats; `isinstance`, the float operations, `str` and the operation
-- that is retried are parameters. The time stamps of a record and the text of the errors that
-- are raised are left out.
pub mod Attempts
pub mod Delays
pub mod Execution
pub mod Guarantee
pub mod Recorded
pub mod Tests
use nodus.Prelude.{
  ℕ, zero, suc, ◌+◌, ◌-◌, Bool, true, false, not, ◌&&◌, ◌||◌, Option, none, some, List, [], ◌∷◌,
  ◌++◌, if◌then◌else◌, ltb, leb, String,
}
use nodus.Prelude.Dict.{Dict, lookup, insert}
use text.Mathlib.Text.{◌==◌}

-- The exceptions that the package raises: `ValueError` of a kind, of a missing key or store,
-- `OverflowError` of a power that no float holds, `IdempotencyConflictError` and `KeyError`.
pub data Fault : Type 0 where
  unsupported_kind too_large requires_key_and_store conflict unknown_record bad_max_attempts : Fault

pub data Fallible {ℓ} (A : Type ℓ) : Type ℓ where
  ok : A → Fallible A
  fails : Fault → Fallible A

infixl 5 ◌>>=◌
abbrev pub ◌>>=◌ {ℓ κ} : {A : Type ℓ} {B : Type κ} → Fallible A → (A → Fallible B) → Fallible B
ok a >>= f = f a
fails e >>= f = fails e

pub data ExecutionGuarantee : Type 0 where
  best_effort at_least_once at_most_once idempotent_replay : ExecutionGuarantee

pub record BackoffStrategy (F : Type 0) : Type 0 where
  pub kind : String
  pub base_delay_seconds : F
  pub max_delay_seconds : Option F
  pub jitter_ratio : Option F

pub record RetryPolicy (F C : Type 0) : Type 0 where
  pub max_attempts : ℕ
  pub backoff : BackoffStrategy F
  pub high_risk_no_retry : Bool
  pub retryable_exceptions : List C
  pub non_retryable_exceptions : List C

-- RetryPolicy.__post_init__
unfoldable pub post_init : {F C : Type 0} → RetryPolicy F C → Fallible (RetryPolicy F C)
post_init p = if ltb p.max_attempts 1 then fails bad_max_attempts else ok p

-- RetryDecision.reason
pub data Reason : Type 0 where
  high_risk non_retryable_exception not_classified_retryable max_attempts_reached
        retryable_exception :
      Reason

pub record RetryDecision (F : Type 0) : Type 0 where
  pub should_retry : Bool
  pub attempt_number : ℕ
  pub next_delay_seconds : Option F
  pub reason : Reason

-- The operations on floats that the code calls. `scale x n` is `x * 2 ** n`, which raises
-- `OverflowError` for a power that is too large, and `uniform n` is the draw of attempt `n`.
pub record Floats (F : Type 0) : Type 0 where
  pub nought : F
  pub max : F → F → F
  pub min : F → F → F
  pub add : F → F → F
  pub mul : F → F → F
  pub neg : F → F
  pub scale : F → ℕ → Option F
  pub uniform : ℕ → F → F → F

module _ {F : Type 0} (fl : Floats F) where
  unfoldable pub raw_delay : BackoffStrategy F → ℕ → Fallible F
  raw_delay s n =
      let base = fl.max fl.nought s.base_delay_seconds in
      if s.kind == "fixed"
      then ok base
      else if s.kind == "exponential"
          || s.kind == "bounded_exponential"
          || s.kind == "jittered_exponential"
      then elim (fl.scale base (n - 1)) [ some d ↦ ok d | none ↦ fails too_large ]
      else fails unsupported_kind

  unfoldable pub capped : Option F → F → F
  capped none d = d
  capped (some cap) d = fl.min d (fl.max fl.nought cap)

  -- `strategy.jitter_ratio or 0.0`
  unfoldable pub ratio_of : Option F → F
  ratio_of none = fl.nought
  ratio_of (some r) = r

  unfoldable pub jittered : BackoffStrategy F → ℕ → F → F
  unfolding ratio_of
  jittered s n d =
      let ratio = fl.max fl.nought (ratio_of s.jitter_ratio) in
      let spread = fl.mul d ratio in
      if s.kind == "jittered_exponential"
      then fl.max fl.nought (fl.add d (fl.uniform n (fl.neg spread) spread))
      else d

  unfoldable pub compute_backoff_delay : BackoffStrategy F → ℕ → Fallible F
  compute_backoff_delay s n = do d ← raw_delay s n; ok (jittered s n (capped s.max_delay_seconds d))

module _ {X C : Type 0} (isinstance : X → C → Bool) where
  unfoldable pub is_any : X → List C → Bool
  is_any x [] = false
  is_any x (c ∷ cs) = isinstance x c || is_any x cs

abbrev pub is_empty {ℓ} : {A : Type ℓ} → List A → Bool
is_empty [] = true
is_empty (x ∷ xs) = false

abbrev pub refuse : {F : Type 0} → ℕ → Reason → Fallible (RetryDecision F)
refuse n why =
    ok
      (record { should_retry = false; attempt_number = n; next_delay_seconds = none; reason = why })

abbrev pub accept : {F : Type 0} → ℕ → F → RetryDecision F
accept n d = record {
  should_retry = true;
  attempt_number = n;
  next_delay_seconds = some d;
  reason = retryable_exception;
}

module _ {X C F : Type 0} (isinstance : X → C → Bool) (fl : Floats F) where
  unfoldable pub classify_exception :
      X → ℕ → RetryPolicy F C → ExecutionGuarantee → String → Fallible (RetryDecision F)
  classify_exception x n p guarantee operation_name =
      if p.high_risk_no_retry
      then refuse n high_risk
      else if is_any isinstance x p.non_retryable_exceptions
      then refuse n non_retryable_exception
      else if not (is_empty p.retryable_exceptions)
          && not (is_any isinstance x p.retryable_exceptions)
      then refuse n not_classified_retryable
      else if leb p.max_attempts n
      then refuse n max_attempts_reached
      else (do d ← compute_backoff_delay fl p.backoff n; ok (accept n d))
