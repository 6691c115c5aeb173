-- ===== src/Vm/Capture.antt =====
-- STORE_ARG, MAKE_CLOSURE and `capture_local`: how a local comes to share a cell with closures.
use nodus.Prelude.{
  ℕ, suc, Option, none, some, List, [], ◌∷◌, ◌++◌, String, get_elem?, set, if◌then◌else◌,
}
use nodus.Prelude.Dict.{Dict, lookup, insert}
use nodus.Tasks.{update}
use nodus.Symbols.{Upvalue}
use nodus.Vm.State.{
  Vm, Slot, plain, cell, Closure, Frame, Fault, python_error, capture_without_frame,
  capture_without_closure, unknown_function, store_arg_without_frame, advance, push,
}
use nodus.Vm.Exceptions.{with_frames}
use nodus.Vm.Frames.{Host, Function, Effect, continues, fault, with_pop, set_cell}

-- a frame and the cells of the machine
pub record Captures (V M : Type 0) : Type 0 where
  pub frame : Frame V M
  pub cells : ℕ → V
  pub next_cell : ℕ
  -- the cells captured so far
  pub upvalues : List ℕ

-- `locals_name_to_slot.get(name)`, where the frame has slots
abbrev pub slot_in : {V : Type 0} → Option (List (Slot V)) → Option (Dict ℕ) → String → Option ℕ
slot_in (some slots) (some d) name = lookup name d
slot_in slots d name = none

abbrev pub slot_at : {V : Type 0} → Option (List (Slot V)) → ℕ → Option (Slot V)
slot_at none i = none
slot_at (some slots) i = get_elem? slots i

abbrev pub set_slot : {V : Type 0} → Option (List (Slot V)) → ℕ → Slot V → Option (List (Slot V))
set_slot none i x = none
set_slot (some slots) i x = some (set slots i x)

abbrev pub outer_cell : Option Closure → Option ℕ → Option ℕ
outer_cell none i = none
outer_cell (some c) none = none
outer_cell (some c) (some i) = get_elem? c.upvalues i

abbrev pub closure_with : Function → List ℕ → Closure
closure_with fn upvalues = record {
  addr = fn.addr;
  params = fn.params;
  local_slots = fn.local_slots;
  is_step_body = fn.is_step_body;
  upvalues = upvalues;
}

module _ {V M : Type 0} where
  abbrev pub slot_of : Frame V M → String → Option ℕ
  slot_of f name = slot_in f.locals_array f.locals_name_to_slot name

  -- `Cell(v)`
  abbrev pub new_cell : Captures V M → V → Frame V M → Captures V M × ℕ
  new_cell s v f = (
    record s { frame = f; cells = update s.cells s.next_cell v; next_cell = suc s.next_cell },
    s.next_cell,
  )

  abbrev pub in_slot : Captures V M → String → ℕ → Option (Slot V) → Option (Captures V M × ℕ)
  in_slot s name i none = none
  in_slot s name i (some (cell c)) = some (s, c)
  in_slot s name i (some (plain v)) = some (
      new_cell s v (record s.frame {
        locals = insert name (cell s.next_cell) s.frame.locals;
        locals_array = set_slot s.frame.locals_array i (cell s.next_cell);
      }))

  abbrev pub in_locals : V → Captures V M → String → Option (Slot V) → Captures V M × ℕ
  in_locals nil s name (some (cell c)) = (s, c)
  in_locals nil s name (some (plain v)) =
      new_cell s v (record s.frame { locals = insert name (cell s.next_cell) s.frame.locals })
  in_locals nil s name none =
      new_cell s nil (record s.frame { locals = insert name (cell s.next_cell) s.frame.locals })

  abbrev pub capture_at : V → Captures V M → String → Option ℕ → Option (Captures V M × ℕ)
  capture_at nil s name (some i) = in_slot s name i (slot_at s.frame.locals_array i)
  capture_at nil s name none = some (in_locals nil s name (lookup name s.frame.locals))

  -- VM.capture_local; `none` where the slot does not exist and Python raises an error of its own
  unfoldable pub capture_local : V → Captures V M → String → Option (Captures V M × ℕ)
  capture_local nil s name = capture_at nil s name (slot_of s.frame name)

  abbrev pub taken : Captures V M → ℕ → Captures V M × Option Fault
  taken s c = (record s { upvalues = s.upvalues ++ c ∷ [] }, none)

  abbrev pub captured : Captures V M → Option (Captures V M × ℕ) → Captures V M × Option Fault
  captured s none = (s, some python_error)
  captured s (some (t, c)) = taken t c

  abbrev pub shared : Captures V M → Option Closure → Option ℕ → Captures V M × Option Fault
  shared s none c = (s, some capture_without_closure)
  shared s (some outer) none = (s, some python_error)
  shared s (some outer) (some c) = taken s c

  -- the body of the loop of MAKE_CLOSURE
  abbrev pub capture_one : V → Captures V M → Upvalue → Captures V M × Option Fault
  capture_one nil s u =
      if u.is_local
      then captured s (capture_local nil s u.name)
      else shared s s.frame.closure (outer_cell s.frame.closure u.index)

  abbrev pub unless_failed :
      (Captures V M → Captures V M × Option Fault)
      → Captures V M × Option Fault
      → Captures V M × Option Fault
  unless_failed rest (s, none) = rest s
  unless_failed rest (s, some e) = (s, some e)

  unfoldable pub capture_all : V → List Upvalue → Captures V M → Captures V M × Option Fault
  unfolding capture_local
  capture_all nil [] s = (s, none)
  capture_all nil (u ∷ us) s = unless_failed (capture_all nil us) (capture_one nil s u)

  abbrev pub after_capture : Vm V M → List (Frame V M) → Captures V M → Vm V M
  after_capture m fs s = record (with_frames m (s.frame ∷ fs)) {
    cells = s.cells;
    next_cell = s.next_cell;
  }

  abbrev pub push_closure :
      Host V M → Vm V M → List (Frame V M) → Function → Captures V M × Option Fault → Effect V M
  push_closure host m fs fn (s, none) =
      continues
        (advance (push (after_capture m fs s) (host.closure_value (closure_with fn s.upvalues))))
  push_closure host m fs fn (s, some e) = fault (after_capture m fs s) e

  -- outside every function there is nothing to capture
  abbrev pub without_frame : Host V M → Vm V M → Function → List Upvalue → Effect V M
  without_frame host m fn [] =
      continues (advance (push m (host.closure_value (closure_with fn []))))
  without_frame host m fn (u ∷ us) =
      fault m (if u.is_local then capture_without_frame else capture_without_closure)

  abbrev pub closure_on : Host V M → Vm V M → Function → List (Frame V M) → Effect V M
  closure_on host m fn [] = without_frame host m fn fn.captures
  closure_on host m fn (f ∷ fs) = push_closure host m fs fn (
      capture_all host.python.nil fn.captures
        (record { frame = f; cells = m.cells; next_cell = m.next_cell; upvalues = [] }))

  abbrev pub make_closure_of : Host V M → Vm V M → Option Function → Effect V M
  make_closure_of host m none = fault m unknown_function
  make_closure_of host m (some fn) = closure_on host m fn m.context.frames

  -- VM._op_make_closure
  unfoldable pub make_closure : Host V M → Vm V M → String → Effect V M
  unfolding capture_all
  make_closure host m name = make_closure_of host m (host.function_of m.module_ctx name)

  abbrev pub arg_in_locals : Vm V M → String → V → Frame V M → Option (Slot V) → Vm V M × Frame V M
  arg_in_locals m name v f (some (cell c)) = (set_cell m c v, f)
  arg_in_locals m name v f _ = (m, record f { locals = insert name (plain v) f.locals })

  abbrev pub arg_in_slot : Vm V M → V → Frame V M → List (Frame V M) → Option ℕ → Effect V M
  arg_in_slot m v f fs none = continues (advance (with_frames m (f ∷ fs)))
  arg_in_slot m v f fs (some i) = elim (slot_at f.locals_array i) [
    | none ↦ fault (with_frames m (f ∷ fs)) python_error
    | some old ↦ continues (
        advance
          (with_frames m (record f { locals_array = set_slot f.locals_array i (plain v) } ∷ fs)))
  ]

  abbrev pub store_arg_on : Vm V M → String → V → List (Frame V M) → Effect V M
  store_arg_on m name v [] = fault m store_arg_without_frame
  store_arg_on m name v (f ∷ fs) =
      let r = arg_in_locals m name v f (lookup name f.locals) in
      arg_in_slot r.0 v r.1 fs (slot_of r.1 name)

  -- VM._op_store_arg
  unfoldable pub store_arg : Vm V M → String → Effect V M
  store_arg m name = with_pop m (λ n v. store_arg_on n name v n.context.frames)
