-- ===== src/Vm/Cells.antt =====
-- STORE_ARG and MAKE_CLOSURE keep the handlers nested.
use mathlib.Core.Path.{subst}
use nodus.Prelude.{ℕ, suc, ◌≡◌, refl, sym, Option, none, some, List, [], ◌∷◌, String, length}
use nodus.Prelude.Dict.{lookup}
use nodus.Symbols.{Upvalue}
use nodus.Vm.State.{
  Vm, Context, Slot, plain, cell, Closure, Frame, Fault, advance, push, with_stack,
}
use nodus.Vm.Frames.{Host, Function, continues, raises}
use nodus.Vm.Nesting.{Nested, NestedContext, NestedEffect}
use nodus.Vm.Returns.{pop-NestedEffect}
use nodus.Vm.Capture.{
  Captures, slot_at, set_slot, slot_of, without_frame, push_closure, closure_on, make_closure_of,
  make_closure, arg_in_locals, arg_in_slot, store_arg_on, store_arg, capture_all,
}

module _ {V M : Type 0} where
  arg_in_slot-NestedEffect :
      (m : Vm V M) (v : V) (f : Frame V M) (fs : List (Frame V M)) (o : Option ℕ)
      → Nested (suc (length fs)) m.context.handler_stack
      → NestedEffect (arg_in_slot m v f fs o)
  arg_in_slot-NestedEffect m v f fs none n = n
  arg_in_slot-NestedEffect m v f fs (some i) n = by_slot (slot_at f.locals_array i)
    where
      by_slot :
          (o : Option (Slot V))
          → NestedEffect (elim o [
            | none ↦
                raises
                  (record m { context = record m.context { frames = f ∷ fs } })
                  (nodus.Vm.State.runtime nodus.Vm.State.python_error)
            | some old ↦ continues (
                advance (record m {
                  context = record m.context {
                    frames = record f { locals_array = set_slot f.locals_array i (plain v) } ∷ fs;
                  };
                }))
          ])
      by_slot none = n
      by_slot (some old) = n

  handlers-arg_in_locals :
      (m : Vm V M) (name : String) (v : V) (f : Frame V M) (o : Option (Slot V))
      → (arg_in_locals m name v f o).0.context ≡ m.context
  handlers-arg_in_locals m name v f none = refl
  handlers-arg_in_locals m name v f (some (cell c)) = refl
  handlers-arg_in_locals m name v f (some (plain old)) = refl

  store_arg_on-NestedEffect :
      (m : Vm V M) (name : String) (v : V) (fs : List (Frame V M))
      → NestedContext m.context
      → Nested (length fs) m.context.handler_stack
      → NestedEffect (store_arg_on m name v fs)
  store_arg_on-NestedEffect m name v [] n h = n
  store_arg_on-NestedEffect m name v (f ∷ fs) n h =
      let r = arg_in_locals m name v f (lookup name f.locals) in
      arg_in_slot-NestedEffect r.0 v r.1 fs (slot_of r.1 name) (
        subst (λ c. Nested (suc (length fs)) c.handler_stack)
          (sym (handlers-arg_in_locals m name v f (lookup name f.locals))) h)

  pub store_arg-NestedEffect :
      (m : Vm V M) (name : String) → NestedContext m.context → NestedEffect (store_arg m name)
  unfolding store_arg
  store_arg-NestedEffect m name n =
      pop-NestedEffect m (λ k v. store_arg_on k name v k.context.frames) n
        (λ s v. store_arg_on-NestedEffect (with_stack m s) name v m.context.frames n n)

  push_closure-NestedEffect :
      (host : Host V M) (m : Vm V M) (fs : List (Frame V M)) (fn : Function)
      (r : Captures V M × Option Fault)
      → Nested (suc (length fs)) m.context.handler_stack
      → NestedEffect (push_closure host m fs fn r)
  push_closure-NestedEffect host m fs fn (s, none) n = n
  push_closure-NestedEffect host m fs fn (s, some e) n = n

  without_frame-NestedEffect :
      (host : Host V M) (m : Vm V M) (fn : Function) (us : List Upvalue)
      → NestedContext m.context
      → NestedEffect (without_frame host m fn us)
  without_frame-NestedEffect host m fn [] n = n
  without_frame-NestedEffect host m fn (u ∷ us) n = n

  closure_on-NestedEffect :
      (host : Host V M) (m : Vm V M) (fn : Function) (fs : List (Frame V M))
      → NestedContext m.context
      → Nested (length fs) m.context.handler_stack
      → NestedEffect (closure_on host m fn fs)
  closure_on-NestedEffect host m fn [] n h = without_frame-NestedEffect host m fn fn.captures n
  closure_on-NestedEffect host m fn (f ∷ fs) n h =
      push_closure-NestedEffect host m fs fn
        (capture_all host.python.nil fn.captures
          (record { frame = f; cells = m.cells; next_cell = m.next_cell; upvalues = [] }))
        h

  make_closure_of-NestedEffect :
      (host : Host V M) (m : Vm V M) (o : Option Function)
      → NestedContext m.context
      → NestedEffect (make_closure_of host m o)
  make_closure_of-NestedEffect host m none n = n
  make_closure_of-NestedEffect host m (some fn) n =
      closure_on-NestedEffect host m fn m.context.frames n n

  pub make_closure-NestedEffect :
      (host : Host V M) (m : Vm V M) (name : String)
      → NestedContext m.context
      → NestedEffect (make_closure host m name)
  unfolding make_closure
  make_closure-NestedEffect host m name n =
      make_closure_of-NestedEffect host m (host.function_of m.module_ctx name) n
