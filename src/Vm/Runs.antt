-- ===== src/Vm/Runs.antt =====
-- Every instruction and every run leaves such a coroutine.
use nodus.Prelude.{
  ℕ, zero, suc, Bool, true, false, Option, none, some, List, get_elem?, if◌then◌else◌,
}
use nodus.Vm.State.{Vm, thrown, at_ip, advance, push, with_stack}
use nodus.Vm.Operators.{binary, unary, is_truthy}
use nodus.Vm.Exceptions.{handle_exception}
use nodus.Vm.Capture.{store_arg, store_arg_on, make_closure}
use nodus.Vm.Frames.{
  Host, Effect, continues, signals, raises, with_pop, answered, do_return, return_value,
  do_finally_end, setup_try, do_pop_try, yield_value, do_call, store_in, with_upvalue, set_cell,
  local_slot, take_args, halted,
}
use nodus.Vm.Step.{
  Instr, step, settled, delivered, round, resume_with, execute, push_const, pop_value, binary_op,
  unary_op, jump, jump_if_false, jump_if_true, frame_size, load_local_idx, store_local_idx,
  reset_local_idx, load_upvalue, store_upvalue, setup_try_op, pop_try_op, finally_end, throw,
  yield_op, return_op, halt, call, store_arg_op, make_closure_op,
}
use nodus.Vm.Signals.{
  Told, pop-Told, answered-Told, return_from-Told, finally-Told, yield-Told, store_in-Told,
  load-Told, reset-Told, upvalue-Told, pop_try-Told, frame_size-Told, call-Told, store_arg-Told,
  closure-Told,
}

abbrev pub ToldOnce : {V M : Type 0} → Option (Effect V M) → Type 0
ToldOnce none = Unit
ToldOnce (some e) = Told e

module _ {V M : Type 0} (host : Host V M) where
  step-Told : (m : Vm V M) (i : Instr V) → Told (step host m i)
  unfolding step do_call setup_try do_pop_try do_return do_finally_end store_arg make_closure
  step-Told m (push_const v) = tt
  step-Told m pop_value = pop-Told m (λ k v. continues (advance k)) (λ s v. tt)
  step-Told m (binary_op o) =
      pop-Told m (λ k b. with_pop k (λ l a. answered l (binary host.python o a b)))
        (λ s b.
          pop-Told (with_stack m s) (λ l a. answered l (binary host.python o a b))
            (λ t a. answered-Told (with_stack m t) (binary host.python o a b)))
  step-Told m (unary_op o) =
      pop-Told m (λ k a. answered k (unary host.python o a))
        (λ s a. answered-Told (with_stack m s) (unary host.python o a))
  step-Told m (jump target) = tt
  step-Told m (jump_if_false target) =
      pop-Told m (λ k v. continues (if is_truthy host.python v then advance k else at_ip k target))
        (λ s v. tt)
  step-Told m (jump_if_true target) =
      pop-Told m (λ k v. continues (if is_truthy host.python v then at_ip k target else advance k))
        (λ s v. tt)
  step-Told m (frame_size i) = frame_size-Told host.python.nil m i m.context.frames
  step-Told m (load_local_idx i) = load-Told m (local_slot m i)
  step-Told m (store_local_idx i) =
      pop-Told m (λ k v. store_in k i v (local_slot k i))
        (λ s v. store_in-Told (with_stack m s) i v (local_slot (with_stack m s) i))
  step-Told m (reset_local_idx i) = reset-Told host.python.nil m i (local_slot m i)
  step-Told m (load_upvalue i) =
      upvalue-Told m i (λ c. continues (advance (push m (m.cells c)))) m.context.frames (λ c. tt)
  step-Told m (store_upvalue i) =
      pop-Told m (λ k v. with_upvalue k i (λ c. continues (advance (set_cell k c v))))
        (λ s v. upvalue-Told (with_stack m s) i _ m.context.frames (λ c. tt))
  step-Told m (setup_try_op target finally_ip) = tt
  step-Told m pop_try_op = pop_try-Told m m.context.handler_stack
  step-Told m finally_end = finally-Told host.error_record m m.context.deferred_error
  step-Told m throw = pop-Told m (λ k v. raises k (thrown v)) (λ s v. tt)
  step-Told m yield_op =
      pop-Told m yield_value (λ s v. yield-Told (with_stack m s) v m.current_coroutine)
  step-Told m return_op =
      pop-Told m return_value (λ s v. return_from-Told (with_stack m s) v m.context.frames _)
  step-Told m halt = tt
  step-Told m (call i) = call-Told host m i (take_args i m.context.stack)
  step-Told m (store_arg_op name) =
      pop-Told m (λ n v. store_arg_on n name v n.context.frames)
        (λ s v. store_arg-Told (with_stack m s) name v m.context.frames)
  step-Told m (make_closure_op name) = closure-Told host m (host.function_of m.module_ctx name)

  settled-Told : (e : Effect V M) → Told e → Told (settled host e)
  settled-Told (continues m) t = t
  settled-Told (signals m s) t = t
  settled-Told (raises m e) t = by_result (handle_exception host.error_record e m)
    where
      by_result : (r : Vm V M × Bool) → Told (delivered host e r)
      by_result (x, true) = tt
      by_result (x, false) = tt

  round-Told : (code : M → List (Instr V)) (m : Vm V M) → Told (round host code m)
  unfolding round
  round-Told code m = by_instr (get_elem? (code m.module_ctx) m.context.ip)
    where
      by_instr :
          (o : Option (Instr V))
          → Told (elim o [ none ↦ signals m halted | some i ↦ settled host (step host m i) ])
      by_instr none = tt
      by_instr (some i) = settled-Told (step host m i) (step-Told m i)

  pub execute-ToldOnce :
      (code : M → List (Instr V)) (fuel : ℕ) (m : Vm V M) → ToldOnce (execute host code fuel m)
  unfolding execute
  execute-ToldOnce code zero m = tt
  execute-ToldOnce code (suc fuel) m =
      by_effect (round host code m) (round-Told code m) (λ k. execute-ToldOnce code fuel k)
    where
      by_effect :
          (e : Effect V M)
          → Told e
          → ((k : Vm V M) → ToldOnce (execute host code fuel k))
          → ToldOnce (resume_with host (execute host code fuel) e)
      by_effect (continues k) t rest = rest k
      by_effect (signals k x) t rest = t
      by_effect (raises k x) t rest = t
