-- ===== src/Vm/Tests.antt =====
-- Runs of the machine on numbers, where 0 is nil and every error's record is 100, and its theorems
-- at concrete machines.
use nodus.Prelude.{
  ℕ, ◌+◌, ◌-◌, ◌*◌, ◌/◌, ◌%◌, ◌≡◌, refl, Bool, true, false, not, Option, none, some, List, [], ◌∷◌,
  arith, ltb, leb, ◌==◌, if◌then◌else◌,
}
use nodus.Prelude.Dict.{Dict, lookup, insert}
use nodus.Vm.State.{Vm, Frame, Handler, Entry, catch_at, thrown}
use nodus.Vm.Operators.{PythonOps, binary, add, div}
use nodus.Vm.Exceptions.{handle_exception, keep, drop_handlers}
use nodus.Vm.Capture.{make_closure, store_arg}
use nodus.Vm.Frames.{
  Function, Host, Effect, signals, halted, do_call, setup_try, do_return, do_finally_end,
}
use nodus.Vm.Step.{
  Instr, push_const, pop_value, binary_op, jump, setup_try_op, throw, return_op, halt, call,
  frame_size, make_closure_op, store_arg_op, store_local_idx, load_local_idx, execute,
}
use nodus.Vm.Nesting.{NestedEffect}
use nodus.Vm.Rounds.{execute-NestedEffect}
use nodus.Vm.Catch.{Caught, caught}
use nodus.Vm.Finally.{Goes, parked}
use nodus.Vm.Cleanup.{
  RunsIn, return_through_finally, return_skips_outer_finally, module_after_return,
}
use nodus.Vm.Twice.{gate_to, finally_starts_again}

abbrev pub one_if : Bool → ℕ
one_if true = 1
one_if false = 0

abbrev pub numbers : PythonOps ℕ
numbers = record {
  nil = 0;
  boolean = one_if;
  is_nil = λ a. a == 0;
  is_int = λ a. true;
  is_float = λ a. false;
  is_bool = λ a. false;
  same_type = λ a b. true;
  truth = λ a. not (a == 0);
  equal = λ a b. a == b;
  float = λ a. a;
  is_zero = λ a. a == 0;
  plus = λ a b. some (a + b);
  minus = λ a b. some (a - b);
  times = λ a b. some (a * b);
  less = λ a b. some (one_if (ltb a b));
  greater = λ a b. some (one_if (ltb b a));
  less_equal = λ a b. some (one_if (leb a b));
  greater_equal = λ a b. some (one_if (leb b a));
  negate = λ a. some a;
  floor_divide = λ a b. a / b;
  remainder = λ a b. a % b;
  divide = λ a b. a / b;
}

-- a function that captures `x` of the enclosing one
abbrev functions : Dict Function
functions =
    (
      "f",
      record {
        addr = 10;
        params = [];
        local_slots = [];
        is_step_body = false;
        captures = record { name = "x"; is_local = true; index = some 0 } ∷ [];
      },
    )
    ∷ []

-- The value 50 is a closure of one parameter, with its code at 10.
abbrev pub host : Host ℕ ℕ
host = record {
  python = numbers;
  as_closure = λ v.
      if v == 50
      then some (record {
        addr = 10;
        params = "x" ∷ [];
        local_slots = ("x", 0) ∷ [];
        is_step_body = false;
        upvalues = [];
      })
      else none;
  error_record = λ e. 100;
  foreign_origin = λ m c. none;
  function_of = λ m name. lookup name functions;
  closure_value = λ c. 50;
}

abbrev pub machine : List ℕ → List (Frame ℕ ℕ) → List Handler → Vm ℕ ℕ
machine stack frames handlers = record {
  context = record {
    ip = 0;
    stack = stack;
    frames = frames;
    handler_stack = handlers;
    deferred_return = none;
    deferred_return_depth = 0;
    deferred_error = none;
    deferred_error_depth = 0;
  };
  current_coroutine = none;
  cancelling = false;
  module_ctx = 0;
  cells = λ c. 0;
  next_cell = 0;
  max_frames = some 100;
}

-- the program of every module
abbrev pub in_all : List (Instr ℕ) → ℕ → List (Instr ℕ)
in_all code module_ctx = code

abbrev result : Option (Effect ℕ ℕ) → List ℕ
result (some (signals m s)) = m.context.stack
result _ = []

abbrev pub calls : List (Instr ℕ)
calls =
    push_const 50
    ∷ push_const 7
    ∷ call 1
    ∷ push_const 1
    ∷ binary_op add
    ∷ halt
    ∷ halt
    ∷ halt
    ∷ halt
    ∷ halt
    ∷ frame_size 1
    ∷ store_local_idx 0
    ∷ load_local_idx 0
    ∷ load_local_idx 0
    ∷ binary_op add
    ∷ return_op
    ∷ []

-- `f(7) + 1`, where `f` doubles its argument
call_and_return : result (execute host (in_all calls) 20 (machine [] [] [])) ≡ 15 ∷ []
unfolding execute do_call binary do_return
call_and_return = refl

abbrev captures_twice : List (Instr ℕ)
captures_twice =
    push_const 50
    ∷ push_const 7
    ∷ call 1
    ∷ halt
    ∷ halt
    ∷ halt
    ∷ halt
    ∷ halt
    ∷ halt
    ∷ halt
    ∷ frame_size 1
    ∷ store_arg_op "x"
    ∷ make_closure_op "f"
    ∷ pop_value
    ∷ make_closure_op "f"
    ∷ pop_value
    ∷ push_const 8
    ∷ store_local_idx 0
    ∷ load_local_idx 0
    ∷ halt
    ∷ []

abbrev cells_used : Option (Effect ℕ ℕ) → List ℕ
cells_used (some (signals m s)) = m.next_cell ∷ m.cells 0 ∷ m.context.stack
cells_used _ = []

-- Two closures capture `x`, and share one cell with the later assignment `x = 8`.
one_cell_is_shared :
    cells_used (execute host (in_all captures_twice) 20 (machine [] [] [])) ≡ 1 ∷ 8 ∷ 8 ∷ []
unfolding execute do_call make_closure store_arg lookup insert
one_cell_is_shared = refl

abbrev divides : List (Instr ℕ)
divides = setup_try_op 5 0 ∷ push_const 3 ∷ push_const 0 ∷ binary_op div ∷ halt ∷ halt ∷ []

-- `try { 3 / 0 } catch err { … }`
division_by_zero_is_caught : result (execute host (in_all divides) 20 (machine [] [] [])) ≡ 100 ∷ []
unfolding execute setup_try binary handle_exception keep
division_by_zero_is_caught = refl

abbrev stopped : Vm ℕ ℕ
stopped = record (machine (100 ∷ []) [] []) {
  context = record (machine (100 ∷ []) [] []).context { ip = 5 };
}

execute-NestedEffect_example : NestedEffect (signals stopped halted)
unfolding execute setup_try binary handle_exception keep drop_handlers
execute-NestedEffect_example =
    execute-NestedEffect host (in_all divides) 20 (machine [] [] []) (signals stopped halted) tt
      refl

abbrev pub frame : Option ℕ → Frame ℕ ℕ
frame context = record {
  return_ip = some 8;
  closure = none;
  locals = [];
  locals_array = none;
  locals_name_to_slot = none;
  cross_module_ctx = context;
}

abbrev pub handler : Entry → ℕ → ℕ → ℕ → Handler
handler entry finally_ip stack_depth frame_depth = record {
  entry = entry;
  finally_ip = finally_ip;
  stack_depth = stack_depth;
  frame_depth = frame_depth;
}

-- An error leaves a function and two values; the catch block is the caller's.
caught_example : Caught 100 4 (handler (catch_at 4) 6 1 0) (7 ∷ []) (
    handle_exception host.error_record
      (thrown 3)
      (machine (9 ∷ 8 ∷ 7 ∷ []) (frame none ∷ []) (handler (catch_at 4) 6 1 0 ∷ [])))
caught_example =
    caught host.error_record (thrown 3)
      (machine (9 ∷ 8 ∷ 7 ∷ []) (frame none ∷ []) (handler (catch_at 4) 6 1 0 ∷ []))
      (handler (catch_at 4) 6 1 0) [] 4 (9 ∷ 8 ∷ []) (7 ∷ []) refl (omega arith, tt) refl refl refl
      refl

abbrev being_cancelled : Vm ℕ ℕ
being_cancelled =
    record (machine [] [] (handler (catch_at 4) 0 0 0 ∷ handler (catch_at 5) 6 0 0 ∷ [])) {
      cancelling = true;
    }

abbrev returns : Vm ℕ ℕ
returns = machine (5 ∷ []) (frame none ∷ []) (handler (catch_at 4) 6 0 1 ∷ [])

-- the machine at the end of a finally block, with a value parked
abbrev after_block : List (Frame ℕ ℕ) → List Handler → Vm ℕ ℕ
after_block frames handlers = record (machine [] frames handlers) {
  context = record (machine [] frames handlers).context { deferred_return = some 5 };
}

-- the same, called from the catch block of a `try` with a finally block, whose gate is below
abbrev returns_to_catch : Vm ℕ ℕ
returns_to_catch =
    machine (5 ∷ []) (frame none ∷ frame none ∷ [])
      (handler (catch_at 4) 6 0 2 ∷ gate_to 9 0 1 ∷ [])

abbrev into_block : Vm ℕ ℕ
into_block = parked returns_to_catch (handler (catch_at 4) 6 0 2) (gate_to 9 0 1 ∷ []) 5 []

return_through_finally_example :
    (into_block.context.ip ≡ 6)
    × (into_block.context.frames ≡ frame none ∷ frame none ∷ [])
    × Goes 8 (5 ∷ []) (frame none ∷ []) [] (
        do_finally_end host.error_record
          (after_block (frame none ∷ frame none ∷ []) (gate_to 9 0 1 ∷ [])))
unfolding do_return drop_handlers
return_through_finally_example =
    return_through_finally host.error_record returns_to_catch into_block
      (after_block (frame none ∷ frame none ∷ []) (gate_to 9 0 1 ∷ [])) (handler (catch_at 4) 6 0 2)
      (gate_to 9 0 1 ∷ []) (frame none) (frame none ∷ []) 5 [] 8 refl refl refl refl
      (λ e. ground arith) refl refl refl refl refl refl

-- `try { try { return 5 } catch a { } } catch b { } finally { … }`, and, with a finally block of the
-- inner `try`, the end of that block
return_skips_outer_finally_example :
    Goes 8 (5 ∷ []) [] [] (
      do_return (
        machine
          (5 ∷ [])
          (frame none ∷ [])
          (handler (catch_at 4) 0 0 1 ∷ handler (catch_at 6) 7 0 1 ∷ [])))
    × Goes 8 (5 ∷ []) [] [] (
        do_finally_end host.error_record
          (after_block (frame none ∷ []) (handler (catch_at 6) 7 0 1 ∷ [])))
unfolding drop_handlers
return_skips_outer_finally_example =
    return_skips_outer_finally host.error_record
      (machine (5 ∷ []) (frame none ∷ [])
        (handler (catch_at 4) 0 0 1 ∷ handler (catch_at 6) 7 0 1 ∷ []))
      (after_block (frame none ∷ []) (handler (catch_at 6) 7 0 1 ∷ [])) (handler (catch_at 4) 0 0 1)
      (handler (catch_at 6) 7 0 1) [] (frame none) [] 5 [] 8 refl refl refl refl refl refl refl refl
      refl refl refl refl

-- Module 3 called a function of module 0.
module_after_return_example :
    RunsIn 3 (do_return (machine (5 ∷ []) (frame (some 3) ∷ []) []))
    × RunsIn 0 (do_finally_end host.error_record (after_block (frame (some 3) ∷ []) []))
module_after_return_example =
    module_after_return host.error_record (machine (5 ∷ []) (frame (some 3) ∷ []) [])
      (after_block (frame (some 3) ∷ []) []) (frame (some 3)) [] 3 5 [] 8 refl refl refl refl refl
      refl refl refl

abbrev throws_in_finally : List (Instr ℕ)
throws_in_finally = jump 1 ∷ push_const 9 ∷ throw ∷ halt ∷ []

finally_starts_again_example :
    (r : Vm ℕ ℕ) × (execute host (in_all throws_in_finally) 4 (machine [] [] (gate_to 1 0 0 ∷ []))
      ≡ execute host (in_all throws_in_finally) 1 r)
    × (r.context.ip ≡ 1)
    × (r.context.deferred_error ≡ some (thrown 9))
finally_starts_again_example =
    finally_starts_again host (in_all throws_in_finally) 1 (machine [] [] (gate_to 1 0 0 ∷ [])) 9 1
      0 0 [] refl refl refl refl
