-- ===== src/Retry/Recorded.antt =====
-- What `RetryExecutor.execute` leaves in the store under `IDEMPOTENT_REPLAY`, and the replay of it.
use mathlib.Core.Path.{subst}
use nodus.Prelude.{
  ℕ, zero, suc, Bool, true, false, Option, none, some, ◌≡◌, refl, ap, ◌∙◌, String, arith,
  if◌then◌else◌,
}
use nodus.Prelude.Dict.{lookup, insert, lookup-insert_self}
use nodus.Retry.{
  ExecutionGuarantee, conflict, Fallible, ok, fails, RetryPolicy, RetryDecision, Floats,
  classify_exception, ◌>>=◌, idempotent_replay,
}
use nodus.Retry.Execution.{
  Status, completed, pending, failed, Run, Attempt, returned, raised, Outcome, result, broken,
  exhausted, Step, done, again, attempt, attempts_loop, execute, settle, decided, with_records,
  call, slept, start, tracked, Store, complete, fail, count, EffectRecord, IdempotencyKey,
  initialize_effect_record, begin, found, change, pending_record,
}

-- The record `r` tells how the execution ended.
abbrev pub Tells : {V : Type 0} → Outcome V → EffectRecord V → Type 0
Tells (result v) r = (r.status ≡ completed) × (r.result_payload ≡ v)
Tells (exhausted n why) r = r.status ≡ failed
Tells _ r = Unit

abbrev pub Told : {V : Type 0} → String → Store V → Outcome V → Type 0
Told a s (result v) = (r : EffectRecord _) × (lookup a s ≡ some r) × Tells (result v) r
Told a s (exhausted n why) =
    (r : EffectRecord _) × (lookup a s ≡ some r) × Tells (exhausted n why) r
Told a s _ = Unit

abbrev ToldStep : {W V F : Type 0} → String → Run W V F × Step V F → Type 0
ToldStep a (t, done o) = Told a t.records o
ToldStep a (t, again d) = Unit

module _ {W V F : Type 0} where
  with_records-ToldStep :
      (a : String) (f : EffectRecord V → EffectRecord V) (r : Run W V F)
      (k : Run W V F → Run W V F × Step V F)
      → ((t : Store V) (x : EffectRecord V)
          → lookup a t ≡ some (f x)
          → ToldStep a (k (record r { records = t })))
      → ToldStep a (with_records r (tracked (some a) f r.records) k)
  unfolding tracked change
  with_records-ToldStep a f r k g = by_found (lookup a r.records)
    where
      by_found :
          (o : Option (EffectRecord V))
          → ToldStep a (with_records r (found o >>= (λ x. ok (insert a (f x) r.records))) k)
      by_found none = tt
      by_found (some x) = g (insert a (f x) r.records) x (lookup-insert_self a (f x) r.records)

  decided-ToldStep :
      (fl : Floats F) (a : String) (n : ℕ) (t : Run W V F) (x : EffectRecord V)
      (d : Fallible (RetryDecision F))
      → lookup a t.records ≡ some x
      → x.status ≡ failed
      → ToldStep a (decided fl n t d)
  decided-ToldStep fl a n t x (fails e) h k = tt
  decided-ToldStep fl a n t x (ok d) h k = by_retry d.should_retry
    where
      by_retry :
          (b : Bool)
          → ToldStep a (
              if b
              then (t, again (elim d.next_delay_seconds [ none ↦ fl.nought | some y ↦ y ]))
              else (t, done (exhausted n d.reason)))
      by_retry true = tt
      by_retry false = (x, h, k)

module _ {W V X C F : Type 0} (isinstance : X → C → Bool) (fl : Floats F) (str : X → String) where
  settle-ToldStep :
      (p : RetryPolicy F C) (g : ExecutionGuarantee) (name : String) (a : String) (n : ℕ)
      (r : Run W V F) (o : Attempt V X)
      → ToldStep a (settle isinstance fl str p g name (some a) n r o)
  settle-ToldStep p g name a n r (returned v) =
      with_records-ToldStep a (complete v) r _ (λ t x h. (complete v x, h, (refl, refl)))
  settle-ToldStep p g name a n r (raised e) = with_records-ToldStep a (fail (str e)) r _ (λ t x h.
      decided-ToldStep fl a n (record r { records = t }) (fail (str e) x)
        (classify_exception isinstance fl e n p g name) h refl)

module _ {W V X C F : Type 0} (isinstance : X → C → Bool) (fl : Floats F) (str : X → String)
    (fn : W → W × Attempt V X) where
  attempt-ToldStep :
      (p : RetryPolicy F C) (g : ExecutionGuarantee) (name : String) (a : String) (n : ℕ)
      (r : Run W V F)
      → ToldStep a (attempt isinstance fl str fn p g name (some a) n r)
  unfolding attempt
  attempt-ToldStep p g name a n r = with_records-ToldStep a count r _ (λ t x h.
      settle-ToldStep isinstance fl str p g name a n (call fn (record r { records = t })).0
        (fn r.world).1)

  loop-Told :
      (fuel : ℕ) (p : RetryPolicy F C) (g : ExecutionGuarantee) (name : String) (a : String) (n : ℕ)
      (r : Run W V F)
      → Told a
          (attempts_loop isinstance fl str fn fuel p g name (some a) n r).0.records
          (attempts_loop isinstance fl str fn fuel p g name (some a) n r).1
  unfolding attempts_loop
  loop-Told zero p g name a n r = tt
  loop-Told (suc fuel) p g name a n r =
      by_step (attempt isinstance fl str fn p g name (some a) (suc n) r)
        (attempt-ToldStep p g name a (suc n) r)
        (λ t d. loop-Told fuel p g name a (suc n) (slept d t))
    where
      rest_of : Run W V F → F → Run W V F × Outcome V
      rest_of t d = attempts_loop isinstance fl str fn fuel p g name (some a) (suc n) (slept d t)

      by_step :
          (x : Run W V F × Step V F)
          → ToldStep a x
          → ((t : Run W V F) (d : F) → Told a (rest_of t d).0.records (rest_of t d).1)
          → (let z : Run W V F × Outcome V = elim x.1 [
            | done o ↦ (x.0, o)
            | again d ↦ rest_of x.0 d
          ] in
              Told a z.0.records z.1)
      by_step (t, done o) h rest = h
      by_step (t, again d) h rest = rest t d

-- Every record of the store is kept under its own action.
abbrev pub IsKeyed : {V : Type 0} → Store V → Type 0
IsKeyed s = (a : String) (r : EffectRecord _) → lookup a s ≡ some r → r.action_id ≡ a

module _ {W V X C F : Type 0} (nil : V) (isinstance : X → C → Bool) (fl : Floats F)
    (str : X → String) where
  module _ (fn : W → W × Attempt V X) (name : String) (p : RetryPolicy F C) (k : IdempotencyKey)
      (s : Store V) (w : W) where
    abbrev ended : Run W V F × Outcome V
    ended = execute nil isinstance fl str fn name p idempotent_replay (some k) (some s) w

    abbrev looped : String → Store V → Run W V F × Outcome V
    looped a t =
        attempts_loop isinstance fl str fn p.max_attempts p idempotent_replay name (some a) 0
          (start w t)

    ended-new :
        lookup k.action_id s ≡ none
        → ended
          ≡ looped k.action_id
              (insert k.action_id (record (pending_record nil k) { operation_name = name }) s)
    unfolding execute initialize_effect_record begin
    ended-new e = rw (e, execute, initialize_effect_record, begin, e) refl

    ended-completed :
        (r : EffectRecord V)
        → lookup k.action_id s ≡ some r
        → r.status ≡ completed
        → ended ≡ (start w s, result r.result_payload)
    unfolding execute initialize_effect_record begin
    ended-completed r e h = cc

    ended-pending :
        (r : EffectRecord V)
        → lookup k.action_id s ≡ some r
        → r.status ≡ pending
        → ended ≡ (start w s, broken conflict)
    unfolding execute initialize_effect_record begin
    ended-pending r e h = cc

    ended-failed :
        (r : EffectRecord V)
        → lookup k.action_id s ≡ some r
        → r.status ≡ failed
        → ended ≡ looped r.action_id s
    unfolding execute initialize_effect_record begin
    ended-failed r e h = ground arith

    execute-Told : IsKeyed s → Told k.action_id ended.0.records ended.1
    execute-Told keyed = by_found (lookup k.action_id s) refl
      where
        loop :
            (t : Store V)
            → Told k.action_id (looped k.action_id t).0.records (looped k.action_id t).1
        loop t =
            loop-Told isinstance fl str fn p.max_attempts p idempotent_replay name k.action_id 0
              (start w t)

        by_status :
            (r : EffectRecord V) (x : Status)
            → lookup k.action_id s ≡ some r
            → r.status ≡ x
            → Told k.action_id ended.0.records ended.1
        by_status r completed e h = rw (ended-completed r e h) (r, e, (h, refl))
        by_status r pending e h = rw (ended-pending r e h) tt
        by_status r failed e h = rw (ended-failed r e h, keyed k.action_id r e) (loop s)

        by_found :
            (o : Option (EffectRecord V))
            → lookup k.action_id s ≡ o
            → Told k.action_id ended.0.records ended.1
        by_found none e =
            rw (ended-new e) (
              loop (insert k.action_id (record (pending_record nil k) { operation_name = name }) s))
        by_found (some r) e = by_status r r.status e refl

module _ {W V X C F : Type 0} (nil : V) (isinstance : X → C → Bool) (fl : Floats F)
    (str : X → String) (fn : W → W × Attempt V X) (name : String) (p : RetryPolicy F C)
    (k : IdempotencyKey) (s : Store V) (w : W) where
  -- In a store that keeps every record under its own action, an execution under IDEMPOTENT_REPLAY
  -- that returns leaves the record of its action completed with what it returned, and one that
  -- exhausts its attempts leaves it failed.
  pub execute-record :
      IsKeyed s
      → (let e = execute nil isinstance fl str fn name p idempotent_replay (some k) (some s) w in
          Told k.action_id e.0.records e.1)
  execute-record = execute-Told nil isinstance fl str fn name p k s w

  -- An effect that has been completed is not run again: after an execution under IDEMPOTENT_REPLAY
  -- that returned `v`, every later one with the same key and the store that it left, whatever its
  -- operation, name, policy and world, returns `v` without calling its operation, sleeping, or
  -- changing the world or the store. The first store keeps every record under its own action.
  pub execute-replay :
      (v : V) (fn' : W → W × Attempt V X) (name' : String) (p' : RetryPolicy F C) (w' : W)
      → IsKeyed s
      → (execute nil isinstance fl str fn name p idempotent_replay (some k) (some s) w).1 ≡ result v
      → (let t =
            (execute nil isinstance fl str fn name p idempotent_replay
              (some k)
              (some s)
              w).0.records in
          execute nil isinstance fl str fn' name' p' idempotent_replay (some k) (some t) w'
          ≡ (start w' t, result v))
  execute-replay v fn' name' p' w' keyed e =
      let e₁ = execute nil isinstance fl str fn name p idempotent_replay (some k) (some s) w in
      let (r, at, (st, pay)) : Told k.action_id e₁.0.records (result v) =
        subst (λ o. Told k.action_id e₁.0.records o) e (execute-record keyed) in
      ended-completed nil isinstance fl str fn' name' p' k e₁.0.records w' r at st
      ∙ ap (λ x. (start w' e₁.0.records, result x)) pay
