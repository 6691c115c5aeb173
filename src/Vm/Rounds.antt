-- ===== src/Vm/Rounds.antt =====
-- Every round of `execute` keeps the handlers nested.
use nodus.Prelude.{
  ℕ, zero, suc, ◌+◌, ◌≡◌, Bool, true, false, not, Option, none, some, List, [], ◌∷◌, ◌++◌, length,
  ◌==◌, arith, if◌then◌else◌, get_elem?,
}
use mathlib.Core.Path.{subst}
use nodus.Vm.State.{
  Vm, Frame, Closure, Handler, Routine, Slot, plain, cell, thrown, at_ip, advance, push, with_stack,
  wrong_arity, step_entry, call_stack_overflow,
}
use nodus.Vm.Operators.{binary, unary, is_truthy}
use nodus.Vm.Exceptions.{handle_exception, with_handlers}
use nodus.Vm.Frames.{
  Host, Effect, continues, signals, raises, with_pop, answered, fault, setup_try, do_pop_try,
  yield_value, enter_closure, call_closure, call_below, do_call, store_in, with_upvalue,
  with_upvalue_on, with_cell, upvalue_of, set_local_on, pop_try_on, yield_from, set_frame_size_on,
  entered, local_slot, too_deep, take_args, set_cell, halted,
}
use nodus.Vm.Step.{
  store_arg_op, make_closure_op, execute, resume_with, load_from, reset_at, delivered, Instr,
  push_const, pop_value, binary_op, unary_op, jump, jump_if_false, jump_if_true, frame_size,
  load_local_idx, store_local_idx, reset_local_idx, load_upvalue, store_upvalue, setup_try_op,
  pop_try_op, finally_end, throw, yield_op, return_op, halt, call, step, settled, round,
}
use nodus.Vm.Cells.{store_arg-NestedEffect, make_closure-NestedEffect}
use nodus.Vm.Nesting.{
  Nested, NestedContext, NestedEffect, Nested-mono, Nested-tail, if-Nested, handle_exception-Nested,
}
use nodus.Vm.Returns.{
  pop-NestedEffect, answered-NestedEffect, do_return-NestedEffect, do_finally_end-NestedEffect,
}

module _ {V M : Type 0} where
  set_local-Nested :
      (m : Vm V M) (i : ℕ) (x : Slot V) (fs : List (Frame V M))
      → Nested (length fs) m.context.handler_stack
      → NestedContext m.context
      → NestedContext (set_local_on m i x fs).context
  set_local-Nested m i x [] h n = n
  set_local-Nested m i x (f ∷ fs) h n = h

  store_in-NestedEffect :
      (m : Vm V M) (i : ℕ) (v : V) (o : Option (Slot V))
      → NestedContext m.context
      → NestedEffect (store_in m i v o)
  store_in-NestedEffect m i v none n = n
  store_in-NestedEffect m i v (some (cell c)) n = n
  store_in-NestedEffect m i v (some (plain old)) n =
      set_local-Nested m i (plain v) m.context.frames n n

  load-NestedEffect :
      (m : Vm V M) (o : Option (Slot V)) → NestedContext m.context → NestedEffect (load_from m o)
  load-NestedEffect m none n = n
  load-NestedEffect m (some x) n = n

  reset-NestedEffect :
      (nil : V) (m : Vm V M) (i : ℕ) (o : Option (Slot V))
      → NestedContext m.context
      → NestedEffect (reset_at nil m i o)
  reset-NestedEffect nil m i none n = n
  reset-NestedEffect nil m i (some x) n = set_local-Nested m i (plain nil) m.context.frames n n

  upvalue-NestedEffect :
      (m : Vm V M) (i : ℕ) (k : ℕ → Effect V M) (fs : List (Frame V M))
      → NestedContext m.context
      → ((c : ℕ) → NestedEffect (k c))
      → NestedEffect (with_upvalue_on m i k fs)
  upvalue-NestedEffect m i k [] n h = n
  upvalue-NestedEffect m i k (f ∷ fs) n h = by_cell (upvalue_of f.closure i)
    where
      by_cell : (o : Option ℕ) → NestedEffect (with_cell m k o)
      by_cell none = n
      by_cell (some c) = h c

  pop_try-NestedEffect :
      (m : Vm V M) (hs : List Handler)
      → Nested (length m.context.frames) hs
      → NestedContext m.context
      → NestedEffect (pop_try_on m hs)
  pop_try-NestedEffect m [] h n = n
  pop_try-NestedEffect m (x ∷ hs) h n =
      let kept = Nested-tail (length m.context.frames) x hs h in
      let m₁ = with_handlers m hs in
      if-Nested (x.finally_ip == 0) (advance m₁) (at_ip m₁ x.finally_ip) kept kept

  yield-NestedEffect :
      (m : Vm V M) (v : V) (o : Option (Routine V M))
      → NestedContext m.context
      → NestedEffect (yield_from m v o)
  yield-NestedEffect m v none n = n
  yield-NestedEffect m v (some c) n = n

  frame_size-NestedEffect :
      (nil : V) (m : Vm V M) (i : ℕ) (fs : List (Frame V M))
      → Nested (length fs) m.context.handler_stack
      → NestedContext m.context
      → NestedEffect (set_frame_size_on nil m i fs)
  frame_size-NestedEffect nil m i [] h n = n
  frame_size-NestedEffect nil m i (f ∷ fs) h n = h

  if-NestedEffect :
      (b : Bool) (x y : Effect V M)
      → NestedEffect x
      → NestedEffect y
      → NestedEffect (if b then x else y)
  if-NestedEffect true x y hx hy = hx
  if-NestedEffect false x y hx hy = hy

  entered-Nested :
      (m : Vm V M) (c : Closure) (o : Option M)
      → NestedContext m.context
      → NestedContext (entered m c o).context
  entered-Nested m c none n = Nested-mono _ _ m.context.handler_stack (omega arith) n
  entered-Nested m c (some x) n = Nested-mono _ _ m.context.handler_stack (omega arith) n

  enter-NestedEffect :
      (host : Host V M) (m : Vm V M) (i : ℕ) (c : Option Closure)
      → NestedContext m.context
      → NestedEffect (enter_closure host m i c)
  enter-NestedEffect host m i none n = n
  enter-NestedEffect host m i (some c) n =
      if-NestedEffect (not (i == length c.params)) (fault m wrong_arity) _ n (
        if-NestedEffect c.is_step_body (fault m step_entry) _ n (
          if-NestedEffect (too_deep m.max_frames (length m.context.frames + 1))
            (fault m call_stack_overflow) (continues (entered m c (host.foreign_origin m c))) n
            (entered-Nested m c (host.foreign_origin m c) n)))

  call-NestedEffect :
      (host : Host V M) (m : Vm V M) (i : ℕ) (o : Option (List V × List V))
      → NestedContext m.context
      → NestedEffect (call_below host m i o)
  unfolding call_closure
  call-NestedEffect host m i none n = n
  call-NestedEffect host m i (some (args, [])) n = n
  call-NestedEffect host m i (some (args, callee ∷ s)) n =
      enter-NestedEffect host (with_stack m (args ++ s)) i (host.as_closure callee) n

module _ {V M : Type 0} (host : Host V M) where
  step-NestedEffect :
      (m : Vm V M) (i : Instr V) → NestedContext m.context → NestedEffect (step host m i)
  unfolding step do_call setup_try do_pop_try
  step-NestedEffect m (push_const v) n = n
  step-NestedEffect m pop_value n = pop-NestedEffect m (λ k v. continues (advance k)) n (λ s v. n)
  step-NestedEffect m (binary_op o) n =
      pop-NestedEffect m (λ k b. with_pop k (λ l a. answered l (binary host.python o a b))) n
        (λ s b.
          pop-NestedEffect (with_stack m s) (λ l a. answered l (binary host.python o a b)) n
            (λ t a. answered-NestedEffect (with_stack m t) (binary host.python o a b) n))
  step-NestedEffect m (unary_op o) n =
      pop-NestedEffect m (λ k a. answered k (unary host.python o a)) n
        (λ s a. answered-NestedEffect (with_stack m s) (unary host.python o a) n)
  step-NestedEffect m (jump target) n = n
  step-NestedEffect m (jump_if_false target) n =
      pop-NestedEffect m
        (λ k v. continues (if is_truthy host.python v then advance k else at_ip k target)) n
        (λ s v.
          if-Nested (is_truthy host.python v) (advance (with_stack m s))
            (at_ip (with_stack m s) target) n n)
  step-NestedEffect m (jump_if_true target) n =
      pop-NestedEffect m
        (λ k v. continues (if is_truthy host.python v then at_ip k target else advance k)) n
        (λ s v.
          if-Nested (is_truthy host.python v) (at_ip (with_stack m s) target)
            (advance (with_stack m s)) n n)
  step-NestedEffect m (frame_size i) n =
      frame_size-NestedEffect host.python.nil m i m.context.frames n n
  step-NestedEffect m (load_local_idx i) n = load-NestedEffect m (local_slot m i) n
  step-NestedEffect m (store_local_idx i) n =
      pop-NestedEffect m (λ k v. store_in k i v (local_slot k i)) n
        (λ s v. store_in-NestedEffect (with_stack m s) i v (local_slot (with_stack m s) i) n)
  step-NestedEffect m (reset_local_idx i) n =
      reset-NestedEffect host.python.nil m i (local_slot m i) n
  step-NestedEffect m (load_upvalue i) n =
      upvalue-NestedEffect m i (λ c. continues (advance (push m (m.cells c)))) m.context.frames n
        (λ c. n)
  step-NestedEffect m (store_upvalue i) n =
      pop-NestedEffect m (λ k v. with_upvalue k i (λ c. continues (advance (set_cell k c v)))) n
        (λ s v. upvalue-NestedEffect (with_stack m s) i _ m.context.frames n (λ c. n))
  step-NestedEffect m (setup_try_op target finally_ip) n = (omega arith, n)
  step-NestedEffect m pop_try_op n = pop_try-NestedEffect m m.context.handler_stack n n
  step-NestedEffect m finally_end n = do_finally_end-NestedEffect host.error_record m n
  step-NestedEffect m throw n = pop-NestedEffect m (λ k v. raises k (thrown v)) n (λ s v. n)
  step-NestedEffect m yield_op n =
      pop-NestedEffect m yield_value n
        (λ s v. yield-NestedEffect (with_stack m s) v m.current_coroutine n)
  step-NestedEffect m return_op n = do_return-NestedEffect m n
  step-NestedEffect m halt n = n
  step-NestedEffect m (call i) n = call-NestedEffect host m i (take_args i m.context.stack) n
  step-NestedEffect m (store_arg_op name) n = store_arg-NestedEffect m name n
  step-NestedEffect m (make_closure_op name) n = make_closure-NestedEffect host m name n

  settled-NestedEffect : (e : Effect V M) → NestedEffect e → NestedEffect (settled host e)
  settled-NestedEffect (continues m) n = n
  settled-NestedEffect (signals m s) n = n
  settled-NestedEffect (raises m e) n =
      by_result (handle_exception host.error_record e m)
        (handle_exception-Nested host.error_record e m n)
    where
      by_result :
          (r : Vm V M × Bool) → NestedContext r.0.context → NestedEffect (delivered host e r)
      by_result (x, true) k = k
      by_result (x, false) k = k

  round-NestedEffect :
      (code : M → List (Instr V)) (m : Vm V M)
      → NestedContext m.context
      → NestedEffect (round host code m)
  unfolding round
  round-NestedEffect code m n = by_instr (get_elem? (code m.module_ctx) m.context.ip)
    where
      by_instr :
          (o : Option (Instr V))
          → NestedEffect
              (elim o [ none ↦ signals m halted | some i ↦ settled host (step host m i) ])
      by_instr none = n
      by_instr (some i) = settled-NestedEffect (step host m i) (step-NestedEffect m i n)

  NestedOutcome : Option (Effect V M) → Type 0
  NestedOutcome none = Unit
  NestedOutcome (some e) = NestedEffect e

  execute-NestedOutcome :
      (code : M → List (Instr V)) (fuel : ℕ) (m : Vm V M)
      → NestedContext m.context
      → NestedOutcome (execute host code fuel m)
  unfolding execute NestedOutcome
  execute-NestedOutcome code zero m n = tt
  execute-NestedOutcome code (suc fuel) m n =
      by_effect (round host code m) (round-NestedEffect code m n)
        (λ k h. execute-NestedOutcome code fuel k h)
    where
      by_effect :
          (e : Effect V M)
          → NestedEffect e
          → ((k : Vm V M) → NestedContext k.context → NestedOutcome (execute host code fuel k))
          → NestedOutcome (resume_with host (execute host code fuel) e)
      by_effect (continues k) h rest = rest k h
      by_effect (signals k x) h rest = h
      by_effect (raises k x) h rest = h

  -- Running any program from a machine whose handlers are nested in its frames (each handler set up
  -- no deeper than the one above it, and none deeper than the frames there are) leaves them so
  -- wherever the run stops: when it yields, returns, halts or raises an error that nothing catches.
  pub execute-NestedEffect :
      (code : M → List (Instr V)) (fuel : ℕ) (m : Vm V M) (e : Effect V M)
      → NestedContext m.context
      → execute host code fuel m ≡ some e
      → NestedEffect e
  unfolding NestedOutcome
  execute-NestedEffect code fuel m e n h =
      subst NestedOutcome h (execute-NestedOutcome code fuel m n)
