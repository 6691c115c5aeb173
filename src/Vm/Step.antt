-- ===== src/Vm/Step.antt =====
-- The instructions and the loop of `execute`. Instructions on collections, records, iterators,
-- builtins and other names are left out, as are tracing, profiling and the limits.
use nodus.Prelude.{
  String, ℕ, zero, suc, Bool, true, false, Option, none, some, List, get_elem?, if◌then◌else◌,
}
use nodus.Vm.State.{Slot, plain, python_error, Error, thrown, Vm, at_ip, advance, push}
use nodus.Vm.Operators.{Binary, Unary, binary, unary, is_truthy}
use nodus.Vm.Exceptions.{handle_exception}
use nodus.Vm.Capture.{store_arg, make_closure}
use nodus.Vm.Frames.{
  Host, halted, Effect, continues, signals, raises, with_pop, answered, fault, local_slot,
  slot_value, set_local, set_cell, store_in, with_upvalue, do_return, do_finally_end, setup_try,
  do_pop_try, yield_value, do_call, set_frame_size,
}

pub data Instr (V : Type 0) : Type 0 where
  push_const : V → Instr V
  pop_value : Instr V
  binary_op : Binary → Instr V
  unary_op : Unary → Instr V
  jump jump_if_false jump_if_true : ℕ → Instr V
  frame_size load_local_idx store_local_idx reset_local_idx : ℕ → Instr V
  load_upvalue store_upvalue : ℕ → Instr V
  -- the handler and the finally block, 0 where there is none
  setup_try_op : ℕ → ℕ → Instr V
  pop_try_op finally_end throw yield_op return_op halt : Instr V
  -- CALL_VALUE of a closure with so many arguments
  call : ℕ → Instr V
  store_arg_op make_closure_op : String → Instr V

module _ {V M : Type 0} where
  abbrev pub load_from : Vm V M → Option (Slot V) → Effect V M
  load_from m none = fault m python_error
  load_from m (some x) = continues (advance (push m (slot_value m x)))

  abbrev pub reset_at : V → Vm V M → ℕ → Option (Slot V) → Effect V M
  reset_at nil m i none = fault m python_error
  reset_at nil m i (some x) = continues (advance (set_local m i (plain nil)))

module _ {V M : Type 0} (host : Host V M) where
  -- one instruction, `instr[0]` in the dispatch table
  unfoldable pub step : Vm V M → Instr V → Effect V M
  step m (push_const v) = continues (advance (push m v))
  step m pop_value = with_pop m (λ n v. continues (advance n))
  step m (binary_op o) =
      with_pop m (λ n b. with_pop n (λ k a. answered k (binary host.python o a b)))
  step m (unary_op o) = with_pop m (λ n a. answered n (unary host.python o a))
  step m (jump target) = continues (at_ip m target)
  step m (jump_if_false target) =
      with_pop m (λ n v. continues (if is_truthy host.python v then advance n else at_ip n target))
  step m (jump_if_true target) =
      with_pop m (λ n v. continues (if is_truthy host.python v then at_ip n target else advance n))
  step m (frame_size n) = set_frame_size host.python.nil m n
  step m (load_local_idx i) = load_from m (local_slot m i)
  step m (store_local_idx i) = with_pop m (λ n v. store_in n i v (local_slot n i))
  step m (reset_local_idx i) = reset_at host.python.nil m i (local_slot m i)
  step m (load_upvalue i) = with_upvalue m i (λ c. continues (advance (push m (m.cells c))))
  step m (store_upvalue i) =
      with_pop m (λ n v. with_upvalue n i (λ c. continues (advance (set_cell n c v))))
  step m (setup_try_op target finally_ip) = continues (advance (setup_try target finally_ip m))
  step m pop_try_op = do_pop_try m
  step m finally_end = do_finally_end host.error_record m
  step m throw = with_pop m (λ n v. raises n (thrown v))
  step m yield_op = with_pop m (λ n v. yield_value n v)
  step m return_op = do_return m
  step m halt = signals m halted
  step m (call n) = do_call host m n
  step m (store_arg_op name) = store_arg m name
  step m (make_closure_op name) = make_closure host m name

  -- the `except` clauses of the loop
  abbrev pub delivered : Error V → Vm V M × Bool → Effect V M
  delivered e (m, true) = continues m
  delivered e (m, false) = raises m e

  abbrev pub settled : Effect V M → Effect V M
  settled (continues m) = continues m
  settled (signals m s) = signals m s
  settled (raises m e) = delivered e (handle_exception host.error_record e m)

  -- one round of the loop, on the code of the module that runs
  unfoldable pub round : (M → List (Instr V)) → Vm V M → Effect V M
  unfolding step
  round code m = elim (get_elem? (code m.module_ctx) m.context.ip) [
    | none ↦ signals m halted
    | some i ↦ settled (step m i)
  ]

  abbrev pub resume_with : (Vm V M → Option (Effect V M)) → Effect V M → Option (Effect V M)
  resume_with rest (continues m) = rest m
  resume_with rest e = some e

  -- VM.execute; `none` where the fuel does not suffice
  unfoldable pub execute : (M → List (Instr V)) → ℕ → Vm V M → Option (Effect V M)
  unfolding round
  execute code zero m = none
  execute code (suc fuel) m = resume_with (execute code fuel) (round code m)
