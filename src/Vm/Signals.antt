-- ===== src/Vm/Signals.antt =====
-- Which coroutine a run leaves when it stops by a yield or a return.
use nodus.Prelude.{
  ℕ, ◌+◌, ◌≡◌, refl, Bool, true, false, not, Option, none, some, List, [], ◌∷◌, ◌++◌, String,
  length, ◌==◌, if◌then◌else◌,
}
use nodus.Prelude.Dict.{lookup}
use nodus.Symbols.{Upvalue}
use nodus.Tasks.{State}
use nodus.Vm.State.{
  Vm, Frame, Closure, Handler, Error, Routine, Slot, plain, cell, Fault, restore_module, at_ip,
  advance, push, with_stack, finish_routine, wrong_arity, step_entry, call_stack_overflow,
  python_error,
}
use nodus.Vm.Operators.{Answer, value, error}
use nodus.Vm.Exceptions.{drop_handlers, with_handlers, with_frames}
use nodus.Vm.Capture.{
  Captures, store_arg_on, arg_in_locals, arg_in_slot, slot_at, slot_of, set_slot, make_closure_of,
  closure_on, push_closure, without_frame,
}
use nodus.Vm.Frames.{
  Host, Function, Effect, continues, signals, raises, with_pop, answered, fault, leave_frame,
  return_from, past_gate, finish_return, resume_return, rethrown, finally_with, pop_try_on,
  yield_from, enter_closure, call_closure, call_below, set_frame_size_on, store_in, with_upvalue_on,
  with_cell, upvalue_of, too_deep, entered, returned, yielded, halted,
}
use nodus.Vm.Step.{load_from, reset_at}

module _ {V M : Type 0} where
  abbrev pub InState : State → Option (Routine V M) → Type 0
  InState s o = (c : Routine V M) × (o ≡ some c) × (c.state ≡ s)

  -- A yield leaves a suspended coroutine, a return a finished one.
  abbrev pub Told : Effect V M → Type 0
  Told (continues m) = Unit
  Told (raises m e) = Unit
  Told (signals m (yielded v)) = InState State.suspended m.current_coroutine
  Told (signals m (returned v)) = InState State.finished m.current_coroutine
  Told (signals m halted) = Unit

  pub if-Told : (b : Bool) (x y : Effect V M) → Told x → Told y → Told (if b then x else y)
  if-Told true x y hx hy = hx
  if-Told false x y hx hy = hy

  pub pop-Told :
      (m : Vm V M) (k : Vm V M → V → Effect V M)
      → ((s : List V) (v : V) → Told (k (with_stack m s) v))
      → Told (with_pop m k)
  pop-Told m k h = by_stack m.context.stack
    where
      by_stack :
          (s : List V)
          → Told
              (elim s [ [] ↦ fault m Fault.stack_underflow | v ∷ rest ↦ k (with_stack m rest) v ])
      by_stack [] = tt
      by_stack (v ∷ rest) = h rest v

  pub answered-Told : (m : Vm V M) (a : Answer V) → Told (answered m a)
  answered-Told m (value v) = tt
  answered-Told m (error e) = tt

  pub leave_frame-Told : (m : Vm V M) (f : Frame V M) (v : V) → Told (leave_frame m f v)
  leave_frame-Told m f v = by_ip f.return_ip m.current_coroutine
    where
      m₁ : Vm V M
      m₁ = with_handlers m (drop_handlers (length m.context.frames) m.context.handler_stack)

      by_ip :
          (o : Option ℕ) (c : Option (Routine V M))
          → Told (elim o [
            | some n ↦ continues (at_ip (push m₁ v) n)
            | none ↦ elim c [
              | some r ↦
                  signals (record m₁ { current_coroutine = some (finish_routine r) }) (returned v)
              | none ↦ fault (push m₁ v) python_error
            ]
          ])
      by_ip (some i) c = tt
      by_ip none (some r) = (finish_routine r, refl, refl)
      by_ip none none = tt

  pub return_from-Told :
      (m : Vm V M) (v : V) (fs : List (Frame V M)) (p : Option (ℕ × List Handler))
      → Told (return_from m v fs p)
  return_from-Told m v [] p = tt
  return_from-Told m v (f ∷ fs) (some (target, hs)) = tt
  return_from-Told m v (f ∷ fs) none =
      leave_frame-Told (restore_module (with_frames m fs) f.cross_module_ctx) f v

  pub finish_return-Told :
      (m : Vm V M) (fs : List (Frame V M)) (v : V) → Told (finish_return m fs v)
  finish_return-Told m [] v = tt
  finish_return-Told m (f ∷ fs) v = leave_frame-Told (with_frames m fs) f v

  pub resume_return-Told : (m : Vm V M) (o : Option V) → Told (resume_return m o)
  resume_return-Told m none = tt
  resume_return-Told m (some v) =
      finish_return-Told (record m { context = record m.context { deferred_return = none } })
        m.context.frames v

  pub rethrown-Told : (e : Error V) (r : Vm V M × Bool) → Told (rethrown e r)
  rethrown-Told e (x, true) = tt
  rethrown-Told e (x, false) = tt

  pub finally-Told :
      (record_of : Error V → V) (m : Vm V M) (e : Option (Error V))
      → Told (finally_with record_of m e)
  finally-Told record_of m (some e) = rethrown-Told e _
  finally-Told record_of m none =
      resume_return-Told (with_handlers m (past_gate m.context.handler_stack))
        m.context.deferred_return

  pub yield-Told : (m : Vm V M) (v : V) (o : Option (Routine V M)) → Told (yield_from m v o)
  yield-Told m v none = tt
  yield-Told m v (some c) = (_, refl, refl)

  pub store_in-Told : (m : Vm V M) (i : ℕ) (v : V) (o : Option (Slot V)) → Told (store_in m i v o)
  store_in-Told m i v none = tt
  store_in-Told m i v (some (cell c)) = tt
  store_in-Told m i v (some (plain old)) = tt

  pub load-Told : (m : Vm V M) (o : Option (Slot V)) → Told (load_from m o)
  load-Told m none = tt
  load-Told m (some x) = tt

  pub reset-Told : (nil : V) (m : Vm V M) (i : ℕ) (o : Option (Slot V)) → Told (reset_at nil m i o)
  reset-Told nil m i none = tt
  reset-Told nil m i (some x) = tt

  pub cell-Told :
      (m : Vm V M) (k : ℕ → Effect V M) (o : Option ℕ)
      → ((c : ℕ) → Told (k c))
      → Told (with_cell m k o)
  cell-Told m k none h = tt
  cell-Told m k (some c) h = h c

  pub upvalue-Told :
      (m : Vm V M) (i : ℕ) (k : ℕ → Effect V M) (fs : List (Frame V M))
      → ((c : ℕ) → Told (k c))
      → Told (with_upvalue_on m i k fs)
  upvalue-Told m i k [] h = tt
  upvalue-Told m i k (f ∷ fs) h = cell-Told m k (upvalue_of f.closure i) h

  pub pop_try-Told : (m : Vm V M) (hs : List Handler) → Told (pop_try_on m hs)
  pop_try-Told m [] = tt
  pop_try-Told m (x ∷ hs) = tt

  pub frame_size-Told :
      (nil : V) (m : Vm V M) (i : ℕ) (fs : List (Frame V M)) → Told (set_frame_size_on nil m i fs)
  frame_size-Told nil m i [] = tt
  frame_size-Told nil m i (f ∷ fs) = tt

  pub enter-Told :
      (host : Host V M) (m : Vm V M) (i : ℕ) (c : Option Closure) → Told (enter_closure host m i c)
  enter-Told host m i none = tt
  enter-Told host m i (some c) = if-Told (not (i == length c.params)) (fault m wrong_arity) _ tt (
      if-Told c.is_step_body (fault m step_entry) _ tt (
        if-Told (too_deep m.max_frames (length m.context.frames + 1)) (fault m call_stack_overflow)
          (continues (entered m c (host.foreign_origin m c))) tt tt))

  pub call-Told :
      (host : Host V M) (m : Vm V M) (i : ℕ) (o : Option (List V × List V))
      → Told (call_below host m i o)
  unfolding call_closure
  call-Told host m i none = tt
  call-Told host m i (some (args, [])) = tt
  call-Told host m i (some (args, callee ∷ s)) =
      enter-Told host (with_stack m (args ++ s)) i (host.as_closure callee)

  pub slot-Told :
      (m : Vm V M) (v : V) (f : Frame V M) (fs : List (Frame V M)) (o : Option ℕ)
      → Told (arg_in_slot m v f fs o)
  slot-Told m v f fs none = tt
  slot-Told m v f fs (some i) = by_slot (slot_at f.locals_array i)
    where
      by_slot :
          (o : Option (Slot V))
          → Told (elim o [
            | none ↦ fault (with_frames m (f ∷ fs)) python_error
            | some old ↦ continues (
                advance (
                  with_frames m
                    (record f { locals_array = set_slot f.locals_array i (plain v) } ∷ fs)))
          ])
      by_slot none = tt
      by_slot (some old) = tt

  pub store_arg-Told :
      (m : Vm V M) (name : String) (v : V) (fs : List (Frame V M)) → Told (store_arg_on m name v fs)
  store_arg-Told m name v [] = tt
  store_arg-Told m name v (f ∷ fs) =
      let r = arg_in_locals m name v f (lookup name f.locals) in
      slot-Told r.0 v r.1 fs (slot_of r.1 name)

  pub push_closure-Told :
      (host : Host V M) (m : Vm V M) (fs : List (Frame V M)) (fn : Function)
      (r : Captures V M × Option Fault)
      → Told (push_closure host m fs fn r)
  push_closure-Told host m fs fn (s, none) = tt
  push_closure-Told host m fs fn (s, some e) = tt

  pub without_frame-Told :
      (host : Host V M) (m : Vm V M) (fn : Function) (us : List Upvalue)
      → Told (without_frame host m fn us)
  without_frame-Told host m fn [] = tt
  without_frame-Told host m fn (u ∷ us) = tt

  pub closure_on-Told :
      (host : Host V M) (m : Vm V M) (fn : Function) (fs : List (Frame V M))
      → Told (closure_on host m fn fs)
  closure_on-Told host m fn [] = without_frame-Told host m fn fn.captures
  closure_on-Told host m fn (f ∷ fs) = push_closure-Told host m fs fn _

  pub closure-Told :
      (host : Host V M) (m : Vm V M) (o : Option Function) → Told (make_closure_of host m o)
  closure-Told host m none = tt
  closure-Told host m (some fn) = closure_on-Told host m fn m.context.frames
