-- ===== src/Vm/Nesting.antt =====
-- The handler stack is nested in the frame stack, whatever the program does.
use nodus.Prelude.{
  ℕ, ◌≤◌, ◌≡◌, refl, Bool, true, false, Option, none, some, List, [], ◌∷◌, length, ltb, ◌==◌, arith,
  if◌then◌else◌,
}
use nodus.Vm.State.{
  Vm, Entry, Context, Frame, Handler, Error, finally_gate, catch_at, restore_module,
}
use nodus.Vm.Exceptions.{
  drop_handlers, drop_frames, unwind_to, discard_stale_deferrals, defer_error, gate, enter_catch,
  handle_on, handle_exception, with_handlers, with_frames,
}
use nodus.Vm.Frames.{Effect, continues, signals, raises}

-- From the top: each handler was set up no higher than the one above it, and the topmost one no
-- higher than `depth` frames.
abbrev pub Nested : ℕ → List Handler → Type 0
Nested depth [] = Unit
Nested depth (h ∷ hs) = (h.frame_depth ≤ depth) × Nested h.frame_depth hs

abbrev pub NestedContext : {V M : Type 0} → Context V M → Type 0
NestedContext c = Nested (length c.frames) c.handler_stack

pub Nested-mono : (a b : ℕ) (hs : List Handler) → a ≤ b → Nested a hs → Nested b hs
Nested-mono a b [] le n = tt
Nested-mono a b (h ∷ hs) le n = (omega arith, n.1)

pub Nested-tail :
    (depth : ℕ) (h : Handler) (hs : List Handler) → Nested depth (h ∷ hs) → Nested depth hs
Nested-tail depth h hs n = Nested-mono h.frame_depth depth hs n.0 n.1

pub Nested-drop_handlers :
    (a depth : ℕ) (hs : List Handler) → Nested a hs → Nested depth (drop_handlers depth hs)
unfolding drop_handlers
Nested-drop_handlers a depth [] n = tt
Nested-drop_handlers a depth (h ∷ hs) n =
    by_test (ltb depth h.frame_depth) refl (Nested-drop_handlers h.frame_depth depth hs n.1)
  where
    by_test :
        (b : Bool)
        → ltb depth h.frame_depth ≡ b
        → Nested depth (drop_handlers depth hs)
        → Nested depth (if b then drop_handlers depth hs else h ∷ hs)
    by_test true e ih = ih
    by_test false e ih = (ground arith, n.1)

module _ {V M : Type 0} where
  pub context-restore : (m : Vm V M) (c : Option M) → (restore_module m c).context ≡ m.context
  context-restore m none = refl
  context-restore m (some x) = refl

  handlers-drop_frames :
      (depth : ℕ) (fs : List (Frame V M)) (m : Vm V M)
      → (drop_frames depth fs m).context.handler_stack ≡ m.context.handler_stack
  unfolding drop_frames
  handlers-drop_frames depth [] m = refl
  handlers-drop_frames depth (f ∷ fs) m = ground (
    arith,
    handlers-drop_frames depth fs (restore_module (with_frames m fs) f.cross_module_ctx),
    context-restore (with_frames m fs) f.cross_module_ctx,
  )

  unwind_to-Nested :
      (a fd sd : ℕ) (m : Vm V M)
      → Nested a m.context.handler_stack
      → NestedContext (unwind_to fd sd m).context
  unfolding unwind_to
  unwind_to-Nested a fd sd m n =
      Nested-drop_handlers a _ _ (rw (handlers-drop_frames fd m.context.frames m) n)

  pub if-Nested :
      (b : Bool) (x y : Vm V M)
      → NestedContext x.context
      → NestedContext y.context
      → NestedContext (if b then x else y).context
  if-Nested true x y hx hy = hx
  if-Nested false x y hx hy = hy

  gate-Nested :
      (h : Handler) (m : Vm V M) → NestedContext m.context → NestedContext (gate h m).context
  gate-Nested h m n = if-Nested (h.finally_ip == 0) m _ n (omega arith, n)

  abbrev Kept : Vm V M × Bool → Type 0
  Kept r = NestedContext r.0.context

  if-Kept : (b : Bool) (x y : Vm V M × Bool) → Kept x → Kept y → Kept (if b then x else y)
  if-Kept true x y hx hy = hx
  if-Kept false x y hx hy = hy

  handle_on-Nested :
      (record_of : Error V → V) (e : Error V) (m : Vm V M) (a : ℕ) (hs : List Handler)
      → Nested a hs
      → Kept (handle_on record_of e m hs)
  unfolding handle_on discard_stale_deferrals
  handle_on-Nested record_of e m a [] n = tt
  handle_on-Nested record_of e m a (h ∷ hs) n =
      by_entry h.entry (handle_on-Nested record_of e m h.frame_depth hs n.1)
    where
      deferred : Kept (defer_error e h (with_handlers m hs), true)
      deferred = unwind_to-Nested h.frame_depth h.frame_depth h.stack_depth (with_handlers m hs) n.1

      by_entry :
          (x : Entry)
          → Kept (handle_on record_of e m hs)
          → Kept (elim x [
            | finally_gate ↦ (defer_error e h (with_handlers m hs), true)
            | catch_at target ↦
                if m.cancelling
                then (if h.finally_ip == 0
                    then handle_on record_of e m hs
                    else (defer_error e h (with_handlers m hs), true))
                else (enter_catch record_of e target h (with_handlers m hs), true)
          ])
      by_entry finally_gate ih = deferred
      by_entry (catch_at target) ih =
          if-Kept m.cancelling _ (enter_catch record_of e target h (with_handlers m hs), true)
            (if-Kept (h.finally_ip == 0) _ (defer_error e h (with_handlers m hs), true) ih deferred)
            (gate-Nested h _ deferred)

  pub handle_exception-Nested :
      (record_of : Error V → V) (e : Error V) (m : Vm V M)
      → NestedContext m.context
      → NestedContext (handle_exception record_of e m).0.context
  unfolding handle_exception
  handle_exception-Nested record_of e m n =
      handle_on-Nested record_of e m (length m.context.frames) m.context.handler_stack n

-- Wherever an instruction leads, the handlers of the machine are nested.
abbrev pub NestedEffect : {V M : Type 0} → Effect V M → Type 0
NestedEffect (continues m) = NestedContext m.context
NestedEffect (signals m s) = NestedContext m.context
NestedEffect (raises m e) = NestedContext m.context
