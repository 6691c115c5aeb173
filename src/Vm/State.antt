-- ===== src/Vm/State.antt =====
-- The state of the virtual machine (`VM`, `Frame`, `Closure`, `Cell`) and the contexts that
-- coroutines swap in and out. `V` is the type of values and `M` that of a module context, the tuple
-- that `_capture_module_ctx` returns. Lists that Python uses as stacks have their top first.
-- Source positions, profiling and the limits on steps, memory and time are left out.
use nodus.Prelude.{ℕ, suc, Bool, true, false, Option, none, some, List, [], ◌∷◌, String}
use nodus.Prelude.Dict.{Dict}
use nodus.Tasks.{State}

-- what a local holds: a value, or the cell that it shares with closures
pub data Slot (V : Type 0) : Type 0 where
  plain : V → Slot V
  cell : ℕ → Slot V

-- `addr` and `params` are those of the closure's function.
pub record Closure : Type 0 where
  pub addr : ℕ
  pub params : List String
  pub local_slots : Dict ℕ
  -- whether `step_owner` marks the body of a workflow step
  pub is_step_body : Bool
  -- the cells
  pub upvalues : List ℕ

pub record Frame (V M : Type 0) : Type 0 where
  -- none for the entry frame of a coroutine
  pub return_ip : Option ℕ
  pub closure : Option Closure
  pub locals : Dict (Slot V)
  pub locals_array : Option (List (Slot V))
  pub locals_name_to_slot : Option (Dict ℕ)
  pub cross_module_ctx : Option M

-- `handler_ip`, or the sentinel `_FINALLY_GATE`
pub data Entry : Type 0 where
  finally_gate : Entry
  catch_at : ℕ → Entry

pub record Handler : Type 0 where
  pub entry : Entry
  -- 0 where there is no finally block
  pub finally_ip : ℕ
  pub stack_depth : ℕ
  pub frame_depth : ℕ

pub data Fault : Type 0 where
  stack_underflow pop_try_without_handler return_outside_function deferred_return_outside_function
        yield_outside_coroutine store_arg_without_frame upvalue_without_frame invalid_upvalue
        capture_without_frame capture_without_closure unknown_function type_error division_by_zero
        modulo_by_zero call_non_function wrong_arity step_entry call_stack_overflow resume_finished
        resume_running python_error :
      Fault

-- LangRuntimeError: one of the machine's own, or a value that the program threw
pub data Error (V : Type 0) : Type 0 where
  runtime : Fault → Error V
  thrown : V → Error V

-- The part of the machine that belongs to what it executes.
pub record Context (V M : Type 0) : Type 0 where
  pub ip : ℕ
  pub stack : List V
  pub frames : List (Frame V M)
  pub handler_stack : List Handler
  pub deferred_return : Option V
  pub deferred_return_depth : ℕ
  pub deferred_error : Option (Error V)
  pub deferred_error_depth : ℕ

-- A coroutine, with the context that it was suspended in.
pub record Routine (V M : Type 0) : Type 0 where
  pub closure : Closure
  -- the last one first, as they come to lie on the stack
  pub initial_args : List V
  pub step_authorized : Bool
  pub last_result : Option V
  pub pending_wait_error : Option (Error V)
  pub state : State
  pub saved : Context V M
  pub saved_ip : Option ℕ
  pub cancelling : Option (Error V)
  pub module_ctx : Option M

pub record Vm (V M : Type 0) : Type 0 where
  pub context : Context V M
  pub current_coroutine : Option (Routine V M)
  -- `_cancelling`
  pub cancelling : Bool
  pub module_ctx : M
  pub cells : ℕ → V
  pub next_cell : ℕ
  pub max_frames : Option ℕ

abbrev pub is_cancelling : {V : Type 0} → Option (Error V) → Bool
is_cancelling none = false
is_cancelling (some e) = true

abbrev pub ip_or_start : Option ℕ → ℕ
ip_or_start none = 0
ip_or_start (some n) = n

module _ {V M : Type 0} where
  abbrev pub at_ip : Vm V M → ℕ → Vm V M
  at_ip m n = record m { context = record m.context { ip = n } }

  -- `self.ip += 1`
  abbrev pub advance : Vm V M → Vm V M
  advance m = at_ip m (suc m.context.ip)

  abbrev pub with_stack : Vm V M → List V → Vm V M
  with_stack m s = record m { context = record m.context { stack = s } }

  abbrev pub push : Vm V M → V → Vm V M
  push m v = with_stack m (v ∷ m.context.stack)

  -- `_restore_module_ctx`, where there is a context to restore
  abbrev pub restore_module : Vm V M → Option M → Vm V M
  restore_module m none = m
  restore_module m (some c) = record m { module_ctx = c }

  -- VM.load_coroutine_context
  unfoldable pub load_coroutine_context : Vm V M → Routine V M → Vm V M
  load_coroutine_context m c =
      restore_module
        (record m {
          context = record c.saved { ip = ip_or_start c.saved_ip };
          cancelling = is_cancelling c.cancelling;
          current_coroutine = some c;
        })
        c.module_ctx

  abbrev pub suspended_in : Vm V M → Option ℕ → State → Routine V M → Routine V M
  suspended_in m next s c = record c {
    state = s;
    saved = m.context;
    saved_ip = next;
    module_ctx = some m.module_ctx;
  }

  -- `state = "suspended"` and VM.save_current_coroutine_state
  abbrev pub save_routine : Vm V M → Option ℕ → Option (Routine V M) → Vm V M
  save_routine m next none = m
  save_routine m next (some c) = record m {
    current_coroutine = some (suspended_in m next State.suspended c);
    cancelling = false;
  }

  -- A coroutine's entry frame has returned.
  abbrev pub finish_routine : Routine V M → Routine V M
  finish_routine c = record c {
    state = State.finished;
    saved = record c.saved { stack = []; frames = []; handler_stack = [] };
    saved_ip = none;
  }

  -- VM.save_execution_context and VM.restore_execution_context
  abbrev pub save_execution_context : Vm V M → Context V M × Option (Routine V M)
  save_execution_context m = (m.context, m.current_coroutine)

  unfoldable pub restore_execution_context : Vm V M → Context V M × Option (Routine V M) → Vm V M
  restore_execution_context m saved = record m { context = saved.0; current_coroutine = saved.1 }
