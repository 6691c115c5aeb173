-- ===== src/Vm/Switch.antt =====
-- What a caller finds when the coroutine that it resumed, or cancelled, has stopped.
use mathlib.Core.Path.{subst}
use nodus.Prelude.{
  ℕ, ◌≡◌, refl, Bool, true, false, not, ◌&&◌, Option, none, some, List, if◌then◌else◌,
}
use nodus.Tasks.{State}
use nodus.Vm.State.{Vm, Routine, Error, load_coroutine_context, restore_execution_context}
use nodus.Vm.Exceptions.{handle_exception}
use nodus.Vm.Frames.{Host, Effect, continues, signals, raises, yielded, returned, halted, too_deep}
use nodus.Vm.Step.{Instr, execute}
use nodus.Vm.Resume.{
  Resumed, Unwound, with_pending, after_delivery, resume_ends, resume_in, resume, unwind_ends,
  unwind_from, unwind_cancelled_coroutine,
}

module _ {V M : Type 0} where
  -- The machine has the caller's context, coroutine and module.
  abbrev pub Back : Vm V M → Vm V M → Type 0
  Back m n =
      (n.context ≡ m.context)
      × (n.current_coroutine ≡ m.current_coroutine)
      × (n.module_ctx ≡ m.module_ctx)

  -- The run goes on for ever, or ends so.
  abbrev BackOnce : Vm V M → Option (Resumed V M) → Type 0
  BackOnce m none = Unit
  BackOnce m (some r) = Back m r.0

  ends-BackOnce :
      (m : Vm V M) (c : Routine V M) (o : Option (Effect V M)) → BackOnce m (resume_ends m c o)
  unfolding resume_ends
  ends-BackOnce m c none = tt
  ends-BackOnce m c (some (continues n)) = tt
  ends-BackOnce m c (some (raises n e)) = (refl, refl, refl)
  ends-BackOnce m c (some (signals n (yielded v))) = (refl, refl, refl)
  ends-BackOnce m c (some (signals n (returned v))) = (refl, refl, refl)
  ends-BackOnce m c (some (signals n halted)) = (refl, refl, refl)

  if-BackOnce :
      (m : Vm V M) (b : Bool) (x y : Option (Resumed V M))
      → BackOnce m x
      → BackOnce m y
      → BackOnce m (if b then x else y)
  if-BackOnce m true x y hx hy = hx
  if-BackOnce m false x y hx hy = hy

  -- The caller has its context and its coroutine back, and no cancellation is under way; the
  -- coroutine is finished, and no longer cancelled.
  abbrev pub Cleared : Vm V M → Unwound V M → Type 0
  Cleared m r =
      (r.0.context ≡ m.context)
      × (r.0.current_coroutine ≡ m.current_coroutine)
      × (r.0.cancelling ≡ false)
      × (r.1.state ≡ State.finished)
      × (r.1.cancelling ≡ none)

  abbrev ClearedOnce : Vm V M → Option (Unwound V M) → Type 0
  ClearedOnce m none = Unit
  ClearedOnce m (some r) = Cleared m r

  ends-ClearedOnce :
      (m : Vm V M) (c : Routine V M) (o : Option (Effect V M)) → ClearedOnce m (unwind_ends m c o)
  unfolding unwind_ends
  ends-ClearedOnce m c none = tt
  ends-ClearedOnce m c (some (continues n)) = tt
  ends-ClearedOnce m c (some (raises n e)) = (refl, refl, refl, refl, refl)
  ends-ClearedOnce m c (some (signals n s)) = (refl, refl, refl, refl, refl)

module _ {V M : Type 0} (host : Host V M) (code : M → List (Instr V)) (fuel : ℕ) where
  delivery-BackOnce :
      (m : Vm V M) (c : Routine V M) (e : Error V) (r : Vm V M × Bool)
      → BackOnce m (after_delivery host code fuel m c e r)
  unfolding restore_execution_context
  delivery-BackOnce m c e (n, true) = ends-BackOnce m c (execute host code fuel n)
  delivery-BackOnce m c e (n, false) = (refl, refl, refl)

  pending-BackOnce :
      (m : Vm V M) (c : Routine V M) (o : Option (Error V))
      → BackOnce m (with_pending host code fuel m c o)
  pending-BackOnce m c none =
      ends-BackOnce m c (execute host code fuel (load_coroutine_context m c))
  pending-BackOnce m c (some e) =
      delivery-BackOnce m c e (handle_exception host.error_record e (load_coroutine_context m c))

  state-BackOnce :
      (m : Vm V M) (c : Routine V M) (s : State) → BackOnce m (resume_in host code fuel m c s)
  unfolding restore_execution_context
  state-BackOnce m c State.finished = (refl, refl, refl)
  state-BackOnce m c State.running = (refl, refl, refl)
  state-BackOnce m c State.suspended =
      if-BackOnce m (c.closure.is_step_body && not c.step_authorized) _ _ (refl, refl, refl)
        (pending-BackOnce m _ c.pending_wait_error)
  state-BackOnce m c State.created =
      if-BackOnce m (c.closure.is_step_body && not c.step_authorized) _ _ (refl, refl, refl)
        (if-BackOnce m (too_deep m.max_frames 1) _ _ (refl, refl, refl) (ends-BackOnce m _ _))

  -- However a call of `resume` ends (the coroutine yields, returns, halts or fails, or cannot
  -- be resumed), the machine has its caller's context, current coroutine and module context
  -- back.
  pub resume-Back :
      (m : Vm V M) (c : Routine V M) (r : Resumed V M)
      → resume host code fuel m c ≡ some r
      → Back m r.0
  unfolding resume
  resume-Back m c r h = subst (BackOnce m) h (state-BackOnce m c c.state)

  handled-ClearedOnce :
      (m : Vm V M) (c : Routine V M) (r : Vm V M × Bool)
      → ClearedOnce m (unwind_from host code fuel m c r)
  unfolding restore_execution_context
  handled-ClearedOnce m c (n, true) = ends-ClearedOnce m c (execute host code fuel n)
  handled-ClearedOnce m c (n, false) = (refl, refl, refl, refl, refl)

  -- However `unwind_cancelled_coroutine` ends, the machine has its caller's context and
  -- current coroutine back, and its flag for a cancellation under way is off, also when the
  -- caller was being cancelled; the coroutine is finished and no longer marked as cancelled.
  pub unwind-Cleared :
      (m : Vm V M) (c : Routine V M) (e : Error V) (r : Unwound V M)
      → unwind_cancelled_coroutine host code fuel m c e ≡ some r
      → Cleared m r
  unfolding unwind_cancelled_coroutine
  unwind-Cleared m c e r h =
      let d = record c { cancelling = some e } in
      subst (ClearedOnce m) h (
        handled-ClearedOnce m d (handle_exception host.error_record e (load_coroutine_context m d)))
