-- ===== src/Retry/Guarantee.antt =====
-- What `RetryExecutor.execute` makes of the guarantee that it passes to `classify_exception`.
use nodus.Prelude.{ℕ, zero, suc, Bool, false, Option, none, some, ◌≡◌, refl, ap, ◌∙◌, String}
use nodus.Retry.{ExecutionGuarantee, RetryPolicy, Floats, Fallible, fails, ok, classify_exception}
use nodus.Retry.Execution.{
  is_replay, Status, completed, pending, failed, Run, Attempt, Outcome, result, broken, Step, done,
  again, attempt, attempts_loop, execute, execute_with, slept, start, Store, store_of, EffectRecord,
  IdempotencyKey, initialize_effect_record,
}

module _ {W V X C F : Type 0} (isinstance : X → C → Bool) (fl : Floats F) (str : X → String)
    (fn : W → W × Attempt V X) (p : RetryPolicy F C) (g g' : ExecutionGuarantee)
    (name : String) where
  attempt-guarantee :
      (a : Option String) (n : ℕ) (r : Run W V F)
      → attempt isinstance fl str fn p g name a n r ≡ attempt isinstance fl str fn p g' name a n r
  unfolding attempt classify_exception
  attempt-guarantee a n r = refl

  loop-guarantee :
      (fuel : ℕ) (a : Option String) (n : ℕ) (r : Run W V F)
      → attempts_loop isinstance fl str fn fuel p g name a n r
        ≡ attempts_loop isinstance fl str fn fuel p g' name a n r
  unfolding attempts_loop
  loop-guarantee zero a n r = refl
  loop-guarantee (suc fuel) a n r =
      ap (λ x. next g x) (attempt-guarantee a (suc n) r)
      ∙ by_step (attempt isinstance fl str fn p g' name a (suc n) r)
          (λ t d. loop-guarantee fuel a (suc n) (slept d t))
    where
      next : ExecutionGuarantee → Run W V F × Step V F → Run W V F × Outcome V
      next h (t, s) = elim s [
        | done o ↦ (t, o)
        | again d ↦ attempts_loop isinstance fl str fn fuel p h name a (suc n) (slept d t)
      ]

      by_step :
          (x : Run W V F × Step V F)
          → ((t : Run W V F) (d : F)
              → attempts_loop isinstance fl str fn fuel p g name a (suc n) (slept d t)
                ≡ attempts_loop isinstance fl str fn fuel p g' name a (suc n) (slept d t))
          → next g x ≡ next g' x
      by_step (t, done o) rest = refl
      by_step (t, again d) rest = rest t d

  with-guarantee :
      (w : W) (s : Store V) (r : Option (EffectRecord V))
      → execute_with isinstance fl str fn p g name w s r
        ≡ execute_with isinstance fl str fn p g' name w s r
  with-guarantee w s none = loop-guarantee p.max_attempts none 0 (start w s)
  with-guarantee w s (some r) = by_status r.status
    where
      ended : ExecutionGuarantee → Status → Run W V F × Outcome V
      ended h x = elim x [
        | completed ↦ (start w s, result r.result_payload)
        | _ ↦
            attempts_loop isinstance fl str fn p.max_attempts p h name (some r.action_id) 0
              (start w s)
      ]

      by_status : (x : Status) → ended g x ≡ ended g' x
      by_status completed = refl
      by_status pending = loop-guarantee p.max_attempts (some r.action_id) 0 (start w s)
      by_status failed = loop-guarantee p.max_attempts (some r.action_id) 0 (start w s)

module _ {V : Type 0} (nil : V) (name : String) where
  initialize-guarantee :
      (g g' : ExecutionGuarantee) (key : Option IdempotencyKey) (store : Option (Store V))
      → is_replay g ≡ false
      → is_replay g' ≡ false
      → initialize_effect_record nil name g key store
        ≡ initialize_effect_record nil name g' key store
  unfolding initialize_effect_record
  initialize-guarantee g g' key store h h' = rw (h, h') refl

module _ {W V X C F : Type 0} (nil : V) (isinstance : X → C → Bool) (fl : Floats F)
    (str : X → String) (fn : W → W × Attempt V X) (name : String) (p : RetryPolicy F C)
    (w : W) where
  -- Any two guarantees other than IDEMPOTENT_REPLAY give the same execution, although the loop
  -- passes the guarantee to `classify_exception`: at most once is retried as at least once is.
  pub execute-guarantee :
      (g g' : ExecutionGuarantee) (key : Option IdempotencyKey) (store : Option (Store V))
      → is_replay g ≡ false
      → is_replay g' ≡ false
      → execute nil isinstance fl str fn name p g key store w
        ≡ execute nil isinstance fl str fn name p g' key store w
  unfolding execute
  execute-guarantee g g' key store h h' =
      ap (λ x. after g x) (initialize-guarantee nil name g g' key store h h')
      ∙ by_record (initialize_effect_record nil name g' key store)
    where
      after :
          ExecutionGuarantee → Fallible (Store V × Option (EffectRecord V)) → Run W V F × Outcome V
      after k x = elim x [
        | fails e ↦ (start w (store_of store), broken e)
        | ok t ↦ execute_with isinstance fl str fn p k name w t.0 t.1
      ]

      by_record : (x : Fallible (Store V × Option (EffectRecord V))) → after g x ≡ after g' x
      by_record (fails e) = refl
      by_record (ok (s, r)) = with-guarantee isinstance fl str fn p g g' name w s r
