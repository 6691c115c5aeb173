-- ===== src/Vm/Frames.antt =====
-- What the instructions do to the machine's stack, its locals and cells, and its frames.
use nodus.Prelude.{
  String, ℕ, zero, suc, ◌+◌, Bool, true, false, not, ◌&&◌, Option, none, some, List, [], ◌∷◌, ◌++◌,
  length, get_elem?, set, ltb, ◌==◌, if◌then◌else◌,
}
use nodus.Prelude.Dict.{Dict}
use nodus.Tasks.{update}
use nodus.Symbols.{Upvalue}
use nodus.Vm.State.{
  Slot, plain, cell, Closure, Frame, Handler, Entry, finally_gate, catch_at, Fault, stack_underflow,
  pop_try_without_handler, return_outside_function, deferred_return_outside_function,
  yield_outside_coroutine, upvalue_without_frame, invalid_upvalue, call_non_function, wrong_arity,
  step_entry, call_stack_overflow, python_error, Error, runtime, Routine, Vm, at_ip, advance,
  with_stack, push, restore_module, save_routine, finish_routine,
}
use nodus.Vm.Operators.{PythonOps, Answer, value, error}
use nodus.Vm.Exceptions.{handle_exception, drop_handlers, with_frames, with_handlers}

-- the pair that a handler returns to leave `execute`
pub data Signal (V : Type 0) : Type 0 where
  yielded returned : V → Signal V
  halted : Signal V

pub data Effect (V M : Type 0) : Type 0 where
  continues : Vm V M → Effect V M
  signals : Vm V M → Signal V → Effect V M
  raises : Vm V M → Error V → Effect V M

-- FunctionInfo, with the variables that the function captures
pub record Function : Type 0 where
  pub addr : ℕ
  pub params : List String
  pub local_slots : Dict ℕ
  pub is_step_body : Bool
  pub captures : List Upvalue

-- What the machine calls and this model does not: Python's operators, the closure that a value is,
-- the record of an error, and `_foreign_closure_origin`; and what a module holds.
pub record Host (V M : Type 0) : Type 0 where
  pub python : PythonOps V
  pub as_closure : V → Option Closure
  pub error_record : Error V → V
  pub foreign_origin : Vm V M → Closure → Option M
  -- the function table of a module, and a closure as a value
  pub function_of : M → String → Option Function
  pub closure_value : Closure → V

abbrev pub is_gate : Entry → Bool
is_gate finally_gate = true
is_gate (catch_at n) = false

-- Past the finally-gate on top of the handlers, if one is there.
abbrev pub past_gate : List Handler → List Handler
past_gate [] = []
past_gate (h ∷ hs) = if is_gate h.entry then hs else h ∷ hs

abbrev pub write_slot : {V : Type 0} → ℕ → Slot V → Option (List (Slot V)) → Option (List (Slot V))
write_slot i x none = none
write_slot i x (some slots) = some (set slots i x)

-- the cell of an upvalue of the running closure
abbrev pub upvalue_of : Option Closure → ℕ → Option ℕ
upvalue_of none i = none
upvalue_of (some c) i = get_elem? c.upvalues i

-- a finally block of the innermost frame is pending on top of the handlers
abbrev pub pending_finally : ℕ → List Handler → Option (ℕ × List Handler)
pending_finally depth [] = none
pending_finally depth (h ∷ hs) =
    if h.frame_depth == depth && not (h.finally_ip == 0) then some (h.finally_ip, hs) else none

-- the arguments, the last one first, and what lies below them
abbrev pub take_args : {V : Type 0} → ℕ → List V → Option (List V × List V)
take_args zero s = some ([], s)
take_args (suc n) [] = none
take_args (suc n) (v ∷ s) = elim (take_args n s) [ none ↦ none | some r ↦ some (v ∷ r.0, r.1) ]

abbrev pub too_deep : Option ℕ → ℕ → Bool
too_deep none n = false
too_deep (some most) n = ltb most n

-- `[None] * n`
abbrev pub blank_slots : {V : Type 0} → V → ℕ → List (Slot V)
blank_slots nil zero = []
blank_slots nil (suc n) = plain nil ∷ blank_slots nil n

-- `if fn.local_slots:`
abbrev pub slots_of : Dict ℕ → Option (Dict ℕ)
slots_of [] = none
slots_of (s ∷ ss) = some (s ∷ ss)

module _ {V M : Type 0} where
  abbrev pub fault : Vm V M → Fault → Effect V M
  fault m e = raises m (runtime e)

  -- VM.pop
  abbrev pub with_pop : Vm V M → (Vm V M → V → Effect V M) → Effect V M
  with_pop m k = elim m.context.stack [
    | [] ↦ fault m stack_underflow
    | v ∷ s ↦ k (with_stack m s) v
  ]

  abbrev pub answered : Vm V M → Answer V → Effect V M
  answered m (value v) = continues (advance (push m v))
  answered m (error e) = fault m e

  abbrev pub slot_value : Vm V M → Slot V → V
  slot_value m (plain v) = v
  slot_value m (cell c) = m.cells c

  abbrev pub set_cell : Vm V M → ℕ → V → Vm V M
  set_cell m c v = record m { cells = update m.cells c v }

  -- `locals_array[slot]` of the innermost frame; `none` where Python raises an error of its own
  abbrev pub local_slot : Vm V M → ℕ → Option (Slot V)
  local_slot m i = elim m.context.frames [
    | [] ↦ none
    | f ∷ fs ↦ elim f.locals_array [ none ↦ none | some slots ↦ get_elem? slots i ]
  ]

  abbrev pub set_local_on : Vm V M → ℕ → Slot V → List (Frame V M) → Vm V M
  set_local_on m i x [] = m
  set_local_on m i x (f ∷ fs) =
      with_frames m (record f { locals_array = write_slot i x f.locals_array } ∷ fs)

  abbrev pub set_local : Vm V M → ℕ → Slot V → Vm V M
  set_local m i x = set_local_on m i x m.context.frames

  abbrev pub store_in : Vm V M → ℕ → V → Option (Slot V) → Effect V M
  store_in m i v none = fault m python_error
  store_in m i v (some (cell c)) = continues (advance (set_cell m c v))
  store_in m i v (some (plain old)) = continues (advance (set_local m i (plain v)))

  abbrev pub with_cell : Vm V M → (ℕ → Effect V M) → Option ℕ → Effect V M
  with_cell m k none = fault m invalid_upvalue
  with_cell m k (some c) = k c

  abbrev pub with_upvalue_on : Vm V M → ℕ → (ℕ → Effect V M) → List (Frame V M) → Effect V M
  with_upvalue_on m i k [] = fault m upvalue_without_frame
  with_upvalue_on m i k (f ∷ fs) = with_cell m k (upvalue_of f.closure i)

  abbrev pub with_upvalue : Vm V M → ℕ → (ℕ → Effect V M) → Effect V M
  with_upvalue m i k = with_upvalue_on m i k m.context.frames

  -- A frame is left for good: its caller goes on with the value, or its coroutine is finished. Only
  -- the entry frame of a coroutine has no `return_ip`.
  abbrev pub leave_frame : Vm V M → Frame V M → V → Effect V M
  leave_frame m f v =
      let m₁ = with_handlers m (drop_handlers (length m.context.frames) m.context.handler_stack) in
      elim f.return_ip [
        | some n ↦ continues (at_ip (push m₁ v) n)
        | none ↦ elim m.current_coroutine [
          | some c ↦
              signals (record m₁ { current_coroutine = some (finish_routine c) }) (returned v)
          | none ↦ fault (push m₁ v) python_error
        ]
      ]

  abbrev pub return_from : Vm V M → V → List (Frame V M) → Option (ℕ × List Handler) → Effect V M
  return_from m v [] p = fault m return_outside_function
  return_from m v (f ∷ fs) (some (target, hs)) = continues (record m {
    context = record m.context {
      handler_stack = hs;
      deferred_return = some v;
      deferred_return_depth = length hs;
      ip = target;
    };
  })
  return_from m v (f ∷ fs) none =
      leave_frame (restore_module (with_frames m fs) f.cross_module_ctx) f v

  abbrev pub return_value : Vm V M → V → Effect V M
  return_value m v =
      return_from m v m.context.frames
        (pending_finally (length m.context.frames) m.context.handler_stack)

  -- VM._op_return
  unfoldable pub do_return : Vm V M → Effect V M
  do_return m = with_pop m return_value

  abbrev pub finish_return : Vm V M → List (Frame V M) → V → Effect V M
  finish_return m [] v = fault m deferred_return_outside_function
  finish_return m (f ∷ fs) v = leave_frame (with_frames m fs) f v

  -- the part of `_op_finally_end` that no error is pending for
  abbrev pub resume_return : Vm V M → Option V → Effect V M
  resume_return m none = continues (advance m)
  resume_return m (some v) =
      let n = record m { context = record m.context { deferred_return = none } } in
      finish_return n n.context.frames v

  abbrev pub rethrown : Error V → Vm V M × Bool → Effect V M
  rethrown e (m, true) = continues m
  rethrown e (m, false) = raises m e

  abbrev pub finally_with : (Error V → V) → Vm V M → Option (Error V) → Effect V M
  finally_with record_of m (some e) = rethrown e (
      handle_exception record_of e
        (record m { context = record m.context { deferred_error = none } }))
  finally_with record_of m none =
      let n = with_handlers m (past_gate m.context.handler_stack) in
      resume_return n n.context.deferred_return

  -- VM._op_finally_end
  unfoldable pub do_finally_end : (Error V → V) → Vm V M → Effect V M
  do_finally_end record_of m = finally_with record_of m m.context.deferred_error

  -- VM.setup_try
  unfoldable pub setup_try : ℕ → ℕ → Vm V M → Vm V M
  setup_try target finally_ip m = with_handlers m (
      record {
        entry = catch_at target;
        finally_ip = finally_ip;
        stack_depth = length m.context.stack;
        frame_depth = length m.context.frames;
      }
      ∷ m.context.handler_stack)

  abbrev pub pop_try_on : Vm V M → List Handler → Effect V M
  pop_try_on m [] = fault m pop_try_without_handler
  pop_try_on m (h ∷ hs) =
      let n = with_handlers m hs in
      continues (if h.finally_ip == 0 then advance n else at_ip n h.finally_ip)

  -- VM._op_pop_try
  unfoldable pub do_pop_try : Vm V M → Effect V M
  do_pop_try m = pop_try_on m m.context.handler_stack

  abbrev pub yield_from : Vm V M → V → Option (Routine V M) → Effect V M
  yield_from m v none = fault m yield_outside_coroutine
  yield_from m v (some c) = signals (save_routine m (some (suc m.context.ip)) (some c)) (yielded v)

  abbrev pub yield_value : Vm V M → V → Effect V M
  yield_value m v = yield_from m v m.current_coroutine

  abbrev pub frame_of : Vm V M → Closure → Option M → Frame V M
  frame_of m c origin = record {
    return_ip = some (suc m.context.ip);
    closure = some c;
    locals = [];
    locals_array = none;
    locals_name_to_slot = slots_of c.local_slots;
    cross_module_ctx = elim origin [ none ↦ none | some o ↦ some m.module_ctx ];
  }

  abbrev pub entered : Vm V M → Closure → Option M → Vm V M
  entered m c origin =
      at_ip (with_frames (restore_module m origin) (frame_of m c origin ∷ m.context.frames)) c.addr

  abbrev pub enter_closure : Host V M → Vm V M → ℕ → Option Closure → Effect V M
  enter_closure host m n none = fault m call_non_function
  enter_closure host m n (some c) =
      if not (n == length c.params)
      then fault m wrong_arity
      else if c.is_step_body
      then fault m step_entry
      else if too_deep m.max_frames (length m.context.frames + 1)
      then fault m call_stack_overflow
      else continues (entered m c (host.foreign_origin m c))

  -- VM.call_closure
  unfoldable pub call_closure : Host V M → Vm V M → V → ℕ → Effect V M
  call_closure host m v n = enter_closure host m n (host.as_closure v)

  abbrev pub call_below : Host V M → Vm V M → ℕ → Option (List V × List V) → Effect V M
  call_below host m n none = fault (with_stack m []) stack_underflow
  call_below host m n (some (args, [])) = fault (with_stack m []) stack_underflow
  call_below host m n (some (args, callee ∷ s)) =
      call_closure host (with_stack m (args ++ s)) callee n

  -- the end of VM._op_call_value, where the callee is a closure of the running program
  unfoldable pub do_call : Host V M → Vm V M → ℕ → Effect V M
  unfolding call_closure
  do_call host m n = call_below host m n (take_args n m.context.stack)

  abbrev pub set_frame_size_on : V → Vm V M → ℕ → List (Frame V M) → Effect V M
  set_frame_size_on nil m n [] = fault m python_error
  set_frame_size_on nil m n (f ∷ fs) =
      continues
        (advance (with_frames m (record f { locals_array = some (blank_slots nil n) } ∷ fs)))

  abbrev pub set_frame_size : V → Vm V M → ℕ → Effect V M
  set_frame_size nil m n = set_frame_size_on nil m n m.context.frames
