-- ===== src/Retry/Execution.antt =====
-- `InMemoryIdempotencyStore` (stores.py) and `RetryExecutor.execute` (executors.py). The operation is
-- a function of the state `W` of the world; it does not call the store itself. `AsyncRetryExecutor`
-- has the same body with `await` before the call and the sleep.
use nodus.Prelude.{
  ℕ, zero, suc, ◌+◌, Bool, true, false, Option, none, some, List, [], ◌∷◌, ◌++◌, if◌then◌else◌,
  String,
}
use nodus.Prelude.Dict.{Dict, lookup, insert}
use nodus.Retry.{
  Fallible, ok, fails, Fault, requires_key_and_store, conflict, unknown_record, ◌>>=◌,
  ExecutionGuarantee, idempotent_replay, RetryPolicy, Reason, RetryDecision, Floats,
  classify_exception,
}

abbrev pub is_replay : ExecutionGuarantee → Bool
is_replay idempotent_replay = true
is_replay _ = false

-- EffectRecord.status
pub data Status : Type 0 where
  pending completed failed : Status

pub record IdempotencyKey : Type 0 where
  pub action_id : String
  pub operation_name : String
  pub scope : Option String

-- `nil` is Python's `None`. The error payload `{"error": str(exc)}` is the text `str(exc)`.
pub record EffectRecord (V : Type 0) : Type 0 where
  pub action_id : String
  pub operation_name : String
  pub status : Status
  pub attempt_count : ℕ
  pub result_payload : V
  pub error_payload : Option String
  pub scope : Option String

abbrev pub Store : Type 0 → Type 0
Store V = Dict (EffectRecord V)

-- What a call of the operation does: return or raise.
pub data Attempt (V X : Type 0) : Type 0 where
  returned : V → Attempt V X
  raised : X → Attempt V X

pub data Outcome (V : Type 0) : Type 0 where
  result : V → Outcome V
  -- RetryExhaustedError, with the number of attempts and the reason
  exhausted : ℕ → Reason → Outcome V
  broken : Fault → Outcome V
  out_of_fuel : Outcome V

-- The world, the store, and what the executor did: the calls of the operation and the sleeps.
pub record Run (W V F : Type 0) : Type 0 where
  pub world : W
  pub records : Store V
  pub calls : ℕ
  pub sleeps : List F

module _ {V : Type 0} where
  -- InMemoryIdempotencyStore.begin, which also returns the record that the store holds
  abbrev pub begin_on :
      EffectRecord V → Store V → Option (EffectRecord V) → Fallible (Store V × EffectRecord V)
  begin_on r s none = ok (insert r.action_id r s, r)
  begin_on r s (some old) = elim old.status [ pending ↦ fails conflict | _ ↦ ok (s, old) ]

  unfoldable pub begin : EffectRecord V → Store V → Fallible (Store V × EffectRecord V)
  begin r s = begin_on r s (lookup r.action_id s)

  -- _require
  abbrev pub found : Option (EffectRecord V) → Fallible (EffectRecord V)
  found none = fails unknown_record
  found (some r) = ok r

  unfoldable pub change : String → (EffectRecord V → EffectRecord V) → Store V → Fallible (Store V)
  change action f s = do r ← found (lookup action s); ok (insert action (f r) s)

  abbrev pub complete : V → EffectRecord V → EffectRecord V
  complete v r = record r { status = completed; result_payload = v; error_payload = none }

  abbrev pub fail : String → EffectRecord V → EffectRecord V
  fail e r = record r { status = failed; error_payload = some e }

  abbrev pub count : EffectRecord V → EffectRecord V
  count r = record r { attempt_count = r.attempt_count + 1 }

  -- the updates of the executor, skipped where there is no record
  unfoldable pub tracked :
      Option String → (EffectRecord V → EffectRecord V) → Store V → Fallible (Store V)
  unfolding change
  tracked none f s = ok s
  tracked (some action) f s = change action f s

module _ {V : Type 0} (nil : V) where
  -- EffectRecord.pending
  abbrev pub pending_record : IdempotencyKey → EffectRecord V
  pending_record k = record {
    action_id = k.action_id;
    operation_name = k.operation_name;
    status = pending;
    attempt_count = 0;
    result_payload = nil;
    error_payload = none;
    scope = k.scope;
  }

  abbrev pub initialize_with :
      String → IdempotencyKey → Store V → Fallible (Store V × EffectRecord V)
  initialize_with name k s =
      let begun = begin (record (pending_record k) { operation_name = name }) s in
      elim (lookup k.action_id s) [
        | none ↦ begun
        | some r ↦ elim r.status [ completed ↦ ok (s, r) | _ ↦ begun ]
      ]

  -- _initialize_effect_record; `s` is the store, if one is given
  unfoldable pub initialize_effect_record :
      String
      → ExecutionGuarantee
      → Option IdempotencyKey
      → Option (Store V)
      → Fallible (Store V × Option (EffectRecord V))
  unfolding begin
  initialize_effect_record name g key s =
      if is_replay g
      then (elim key [
        | none ↦ fails requires_key_and_store
        | some k ↦ elim s [
          | none ↦ fails requires_key_and_store
          | some store ↦ (do (t, r) ← initialize_with name k store; ok (t, some r))
        ]
      ])
      else ok (elim s [ none ↦ [] | some store ↦ store ], none)

-- What an attempt leads to: the end of `execute`, or a sleep and another attempt.
pub data Step (V F : Type 0) : Type 0 where
  done : Outcome V → Step V F
  again : F → Step V F

module _ {W V F : Type 0} where
  abbrev pub slept : F → Run W V F → Run W V F
  slept d r = record r { sleeps = r.sleeps ++ d ∷ [] }

  abbrev pub start : W → Store V → Run W V F
  start w s = record { world = w; records = s; calls = 0; sleeps = [] }

  abbrev pub with_records :
      Run W V F → Fallible (Store V) → (Run W V F → Run W V F × Step V F) → Run W V F × Step V F
  with_records r (fails e) k = (r, done (broken e))
  with_records r (ok s) k = k (record r { records = s })

module _ {W V X F : Type 0} (fn : W → W × Attempt V X) where
  abbrev pub call : Run W V F → Run W V F × Attempt V X
  call r = let (w, o) = fn r.world in (record r { world = w; calls = suc r.calls }, o)

module _ {W V F : Type 0} (fl : Floats F) where
  abbrev pub decided : ℕ → Run W V F → Fallible (RetryDecision F) → Run W V F × Step V F
  decided n r (fails e) = (r, done (broken e))
  decided n r (ok d) =
      if d.should_retry
      then (r, again (elim d.next_delay_seconds [ none ↦ fl.nought | some x ↦ x ]))
      else (r, done (exhausted n d.reason))

module _ {W V X C F : Type 0} (isinstance : X → C → Bool) (fl : Floats F) (str : X → String) where
  -- What follows the call. Where `mark_completed` raises, so does `mark_failed` in the handler.
  -- The record is completed, or failed and the exception classified
  abbrev pub settle :
      RetryPolicy F C
      → ExecutionGuarantee
      → String
      → Option String
      → ℕ
      → Run W V F
      → Attempt V X
      → Run W V F × Step V F
  settle p g name a n r (returned v) =
      with_records r (tracked a (complete v) r.records) (λ t. (t, done (result v)))
  settle p g name a n r (raised x) =
      with_records r (tracked a (fail (str x)) r.records)
        (λ t. decided fl n t (classify_exception isinstance fl x n p g name))

module _ {W V X C F : Type 0} (isinstance : X → C → Bool) (fl : Floats F) (str : X → String)
    (fn : W → W × Attempt V X) where
  -- the body of `while True`, for attempt `n`
  unfoldable pub attempt :
      RetryPolicy F C
      → ExecutionGuarantee
      → String
      → Option String
      → ℕ
      → Run W V F
      → Run W V F × Step V F
  unfolding tracked
  attempt p g name a n r =
      with_records r (tracked a count r.records)
        (λ t. let (u, o) = call fn t in settle isinstance fl str p g name a n u o)

  unfoldable pub attempts_loop :
      ℕ
      → RetryPolicy F C
      → ExecutionGuarantee
      → String
      → Option String
      → ℕ
      → Run W V F
      → Run W V F × Outcome V
  unfolding attempt
  attempts_loop zero p g name a n r = (r, out_of_fuel)
  attempts_loop (suc fuel) p g name a n r =
      let (t, s) = attempt p g name a (suc n) r in
      elim s [ done o ↦ (t, o) | again d ↦ attempts_loop fuel p g name a (suc n) (slept d t) ]

  abbrev pub execute_with :
      RetryPolicy F C
      → ExecutionGuarantee
      → String
      → W
      → Store V
      → Option (EffectRecord V)
      → Run W V F × Outcome V
  execute_with p g name w s none = attempts_loop p.max_attempts p g name none 0 (start w s)
  execute_with p g name w s (some r) = elim r.status [
    | completed ↦ (start w s, result r.result_payload)
    | _ ↦ attempts_loop p.max_attempts p g name (some r.action_id) 0 (start w s)
  ]

abbrev pub store_of : {V : Type 0} → Option (Store V) → Store V
store_of none = []
store_of (some s) = s

module _ {W V X C F : Type 0} (nil : V) (isinstance : X → C → Bool) (fl : Floats F)
    (str : X → String) (fn : W → W × Attempt V X) where
  -- RetryExecutor.execute
  unfoldable pub execute :
      String
      → RetryPolicy F C
      → ExecutionGuarantee
      → Option IdempotencyKey
      → Option (Store V)
      → W
      → Run W V F × Outcome V
  unfolding initialize_effect_record attempts_loop
  execute name p g key s w = elim (initialize_effect_record nil name g key s) [
    | fails e ↦ (start w (store_of s), broken e)
    | ok t ↦ execute_with isinstance fl str fn p g name w t.0 t.1
  ]
