-- ===== src/Retry/Attempts.antt =====
-- The attempts of `RetryExecutor.execute`: their number and the end of the loop.
use nodus.Prelude.{
  ℕ, zero, suc, ◌+◌, ◌≤◌, ◌<◌, Bool, true, false, Option, none, some, ◌≡◌, ◌≢◌, refl, if◌then◌else◌,
  arith, leb, String,
}
use nodus.Retry.{
  post_init, refuse, max_attempts_reached, Fallible, ok, fails, Fault, RetryPolicy, RetryDecision,
  Reason, Floats, classify_exception, accept, ◌>>=◌, ExecutionGuarantee,
}
use nodus.Retry.Execution.{
  Status, store_of, Run, Attempt, returned, raised, Outcome, result, broken, exhausted, out_of_fuel,
  Step, done, again, attempt, attempts_loop, execute, execute_with, settle, decided, with_records,
  slept, start, tracked, Store, complete, fail, count, EffectRecord, IdempotencyKey,
  initialize_effect_record, completed, pending, failed,
}

-- A decision to retry comes before the last attempt.
data Early {F : Type 0} (max n : ℕ) : Fallible (RetryDecision F) → Type 0 where
  undecided : {e : Fault} → Early max n (fails e)
  refused : {d : RetryDecision F} → d.should_retry ≡ false → Early max n (ok d)
  early : {d : RetryDecision F} → n < max → Early max n (ok d)

-- one more call at most, and a next attempt only before the last one
abbrev Counted : {W V F : Type 0} → ℕ → ℕ → ℕ → Run W V F × Step V F → Type 0
Counted max n c (t, done o) = (t.calls ≤ suc c) × (o ≢ out_of_fuel)
Counted max n c (t, again d) = (t.calls ≤ suc c) × (n < max)

-- What the loop guarantees: at most so many calls, and enough fuel.
abbrev Ends : {W V F : Type 0} → ℕ → Run W V F × Outcome V → Type 0
Ends most (t, o) = (t.calls ≤ most) × (o ≢ out_of_fuel)

module _ {F : Type 0} {max n : ℕ} where
  Early-if :
      (b : Bool) (f g : Fallible (RetryDecision F))
      → Early max n f
      → Early max n g
      → Early max n (if b then f else g)
  Early-if true f g hf hg = hf
  Early-if false f g hf hg = hg

  Early-last :
      (f : Fallible F)
      → Early max n
          (if leb max n then refuse n max_attempts_reached else (f >>= (λ d. ok (accept n d))))
  Early-last (ok d) = by_order (leb max n) refl
    where
      by_order :
          (b : Bool)
          → leb max n ≡ b
          → Early max n (if b then refuse n max_attempts_reached else ok (accept n d))
      by_order true h = refused refl
      by_order false h = early (ground arith)
  Early-last (fails e) = Early-if (leb max n) _ _ (refused refl) undecided

  Early-refuse : (why : Reason) → Early max n (refuse {F = F} n why)
  Early-refuse why = refused refl

module _ {X C F : Type 0} (isinstance : X → C → Bool) (fl : Floats F) where
  classify-Early :
      (x : X) (n : ℕ) (p : RetryPolicy F C) (g : ExecutionGuarantee) (name : String)
      → Early p.max_attempts n (classify_exception isinstance fl x n p g name)
  unfolding classify_exception
  classify-Early x n p g name = search (Early-if, Early-refuse, Early-last)

module _ {W V F : Type 0} where
  Counted-if :
      (max n c : ℕ) (b : Bool) (x y : Run W V F × Step V F)
      → Counted max n c x
      → Counted max n c y
      → Counted max n c (if b then x else y)
  Counted-if max n c true x y hx hy = hx
  Counted-if max n c false x y hx hy = hy

  decided-Counted :
      (fl : Floats F) (max n c : ℕ) (t : Run W V F) (d : Fallible (RetryDecision F))
      → t.calls ≤ suc c
      → Early max n d
      → Counted max n c (decided fl n t d)
  decided-Counted fl max n c t (fails e) h k = (h, ground arith)
  decided-Counted fl max n c t (ok d) h (refused e) = rw e (h, ground arith)
  decided-Counted fl max n c t (ok d) h (early lt) =
      Counted-if max n c d.should_retry _ (t, done (exhausted n d.reason)) (h, lt) (h, ground arith)

  with-Counted :
      (max n c : ℕ) (r : Run W V F) (f : Fallible (Store V)) (k : Run W V F → Run W V F × Step V F)
      → r.calls ≤ suc c
      → ((s : Store V) → Counted max n c (k (record r { records = s })))
      → Counted max n c (with_records r f k)
  with-Counted max n c r (fails e) k h g = (h, ground arith)
  with-Counted max n c r (ok s) k h g = g s

module _ {W V X C F : Type 0} (isinstance : X → C → Bool) (fl : Floats F) (str : X → String) where
  settle-Counted :
      (p : RetryPolicy F C) (g : ExecutionGuarantee) (name : String) (a : Option String) (n c : ℕ)
      (r : Run W V F) (o : Attempt V X)
      → r.calls ≤ suc c
      → Counted p.max_attempts n c (settle isinstance fl str p g name a n r o)
  settle-Counted p g name a n c r (returned v) h =
      with-Counted p.max_attempts n c r (tracked a (complete v) r.records) _ h
        (λ s. (h, ground arith))
  settle-Counted p g name a n c r (raised x) h =
      with-Counted p.max_attempts n c r (tracked a (fail (str x)) r.records) _ h (λ s.
        decided-Counted fl p.max_attempts n c _ (classify_exception isinstance fl x n p g name) h
          (classify-Early isinstance fl x n p g name))

module _ {W V X C F : Type 0} (isinstance : X → C → Bool) (fl : Floats F) (str : X → String)
    (fn : W → W × Attempt V X) where
  attempt-Counted :
      (p : RetryPolicy F C) (g : ExecutionGuarantee) (name : String) (a : Option String) (n : ℕ)
      (r : Run W V F)
      → Counted p.max_attempts n r.calls (attempt isinstance fl str fn p g name a n r)
  unfolding attempt
  attempt-Counted p g name a n r =
      with-Counted p.max_attempts n r.calls r (tracked a count r.records) _ (omega arith)
        (λ s. settle-Counted isinstance fl str p g name a n r.calls _ (fn r.world).1 (omega arith))

  loop-Ends :
      (most fuel : ℕ) (p : RetryPolicy F C) (g : ExecutionGuarantee) (name : String)
      (a : Option String) (n : ℕ) (r : Run W V F)
      → 0 < fuel
      → r.calls + fuel ≤ most
      → p.max_attempts ≤ n + fuel
      → Ends most (attempts_loop isinstance fl str fn fuel p g name a n r)
  unfolding attempts_loop
  loop-Ends most zero p g name a n r h b k = ground arith
  loop-Ends most (suc fuel) p g name a n r h b k =
      by_step (attempt isinstance fl str fn p g name a (suc n) r)
        (attempt-Counted p g name a (suc n) r)
        (λ t d. loop-Ends most fuel p g name a (suc n) (slept d t))
    where
      by_step :
          (x : Run W V F × Step V F)
          → Counted p.max_attempts (suc n) r.calls x
          → ((t : Run W V F) (d : F)
              → 0 < fuel
              → t.calls + fuel ≤ most
              → p.max_attempts ≤ suc n + fuel
              → Ends most (attempts_loop isinstance fl str fn fuel p g name a (suc n) (slept d t)))
          → Ends {W = W} {V = V} {F = F} most (elim x.1 [
            | done o ↦ (x.0, o)
            | again d ↦ attempts_loop isinstance fl str fn fuel p g name a (suc n) (slept d x.0)
          ])
      by_step (t, done o) (c, ne) rest = (omega arith, ne)
      by_step (t, again d) (c, lt) rest = rest t d (omega arith) (omega arith) (omega arith)

  execute_with-Ends :
      (p : RetryPolicy F C) (g : ExecutionGuarantee) (name : String) (w : W) (s : Store V)
      (r : Option (EffectRecord V))
      → 1 ≤ p.max_attempts
      → Ends p.max_attempts (execute_with isinstance fl str fn p g name w s r)
  execute_with-Ends p g name w s none h =
      loop-Ends p.max_attempts p.max_attempts p g name none 0 (start w s) h (omega arith)
        (omega arith)
  execute_with-Ends p g name w s (some r) h = by_status r.status
    where
      by_status :
          (x : Status)
          → Ends {W = W} {V = V} {F = F} p.max_attempts (elim x [
            | completed ↦ (start w s, result r.result_payload)
            | _ ↦
                attempts_loop isinstance fl str fn p.max_attempts p g name
                  (some r.action_id)
                  0
                  (start w s)
          ])
      by_status completed = (omega arith, ground arith)
      by_status pending =
          loop-Ends p.max_attempts p.max_attempts p g name (some r.action_id) 0 (start w s) h
            (omega arith) (omega arith)
      by_status failed =
          loop-Ends p.max_attempts p.max_attempts p g name (some r.action_id) 0 (start w s) h
            (omega arith) (omega arith)

module _ {W V X C F : Type 0} (nil : V) (isinstance : X → C → Bool) (fl : Floats F)
    (str : X → String) (fn : W → W × Attempt V X) where
  execute_from-Ends :
      (p : RetryPolicy F C) (g : ExecutionGuarantee) (name : String) (s : Option (Store V)) (w : W)
      (t : Fallible (Store V × Option (EffectRecord V)))
      → 1 ≤ p.max_attempts
      → Ends {W = W} {V = V} {F = F} p.max_attempts (elim t [
        | fails e ↦ (start w (store_of s), broken e)
        | ok t ↦ execute_with isinstance fl str fn p g name w t.0 t.1
      ])
  execute_from-Ends p g name s w (fails e) h = (omega arith, ground arith)
  execute_from-Ends p g name s w (ok (t, r)) h =
      execute_with-Ends isinstance fl str fn p g name w t r h

  accepted_policy : (p : RetryPolicy F C) → post_init p ≡ ok p → 1 ≤ p.max_attempts
  unfolding post_init
  accepted_policy p h = ground arith

  -- With a policy that its constructor accepts, the loop of `execute` ends, by a result or an
  -- error, and the operation is called at most `max_attempts` times.
  pub execute-max_attempts :
      (name : String) (p : RetryPolicy F C) (g : ExecutionGuarantee) (key : Option IdempotencyKey)
      (s : Option (Store V)) (w : W)
      → post_init p ≡ ok p
      → ((execute nil isinstance fl str fn name p g key s w).0.calls ≤ p.max_attempts)
        × ((execute nil isinstance fl str fn name p g key s w).1 ≢ out_of_fuel)
  unfolding execute
  execute-max_attempts name p g key s w h =
      execute_from-Ends p g name s w (initialize_effect_record nil name g key s)
        (accepted_policy p h)
