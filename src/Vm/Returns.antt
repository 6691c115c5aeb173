-- ===== src/Vm/Returns.antt =====
-- Popping, returning and ending a finally block keep the handlers nested.
use nodus.Prelude.{
  ℕ, ◌≡◌, refl, Bool, true, false, not, Option, none, some, List, [], ◌∷◌, length, ◌==◌,
  if◌then◌else◌, ◌&&◌,
}
use nodus.Vm.State.{
  Vm, Frame, Handler, Error, Routine, Fault, restore_module, at_ip, push, with_stack,
  finish_routine, python_error,
}
use nodus.Vm.Operators.{Answer, value, error}
use nodus.Vm.Exceptions.{drop_handlers, handle_exception, with_handlers, with_frames}
use nodus.Vm.Frames.{
  Effect, continues, signals, with_pop, answered, fault, leave_frame, pending_finally, return_from,
  do_return, return_value, past_gate, is_gate, finish_return, resume_return, rethrown, finally_with,
  do_finally_end, returned,
}
use nodus.Vm.Nesting.{
  Nested, NestedContext, NestedEffect, Nested-tail, Nested-drop_handlers, context-restore,
  handle_exception-Nested,
}

abbrev Pending : ℕ → Option (ℕ × List Handler) → Type 0
Pending depth none = Unit
Pending depth (some p) = Nested depth p.1

pending_finally-Pending :
    (depth : ℕ) (hs : List Handler) → Nested depth hs → Pending depth (pending_finally depth hs)
pending_finally-Pending depth [] n = tt
pending_finally-Pending depth (h ∷ hs) n =
    by_test (h.frame_depth == depth && not (h.finally_ip == 0))
  where
    by_test : (b : Bool) → Pending depth (if b then some (h.finally_ip, hs) else none)
    by_test true = Nested-tail depth h hs n
    by_test false = tt

past_gate-Nested : (depth : ℕ) (hs : List Handler) → Nested depth hs → Nested depth (past_gate hs)
past_gate-Nested depth [] n = tt
past_gate-Nested depth (h ∷ hs) n = by_test (is_gate h.entry)
  where
    by_test : (b : Bool) → Nested depth (if b then hs else h ∷ hs)
    by_test true = Nested-tail depth h hs n
    by_test false = n

module _ {V M : Type 0} where
  pub pop-NestedEffect :
      (m : Vm V M) (k : Vm V M → V → Effect V M)
      → NestedContext m.context
      → ((s : List V) (v : V) → NestedEffect (k (with_stack m s) v))
      → NestedEffect (with_pop m k)
  pop-NestedEffect m k n h = by_stack m.context.stack
    where
      by_stack :
          (s : List V)
          → NestedEffect
              (elim s [ [] ↦ fault m Fault.stack_underflow | v ∷ rest ↦ k (with_stack m rest) v ])
      by_stack [] = n
      by_stack (v ∷ rest) = h rest v

  pub answered-NestedEffect :
      (m : Vm V M) (a : Answer V) → NestedContext m.context → NestedEffect (answered m a)
  answered-NestedEffect m (value v) n = n
  answered-NestedEffect m (error e) n = n

  leave_frame-NestedEffect :
      (m : Vm V M) (f : Frame V M) (v : V) (a : ℕ)
      → Nested a m.context.handler_stack
      → NestedEffect (leave_frame m f v)
  leave_frame-NestedEffect m f v a n = by_ip f.return_ip m.current_coroutine
    where
      m₁ : Vm V M
      m₁ = with_handlers m (drop_handlers (length m.context.frames) m.context.handler_stack)

      kept : NestedContext m₁.context
      kept = Nested-drop_handlers a (length m.context.frames) m.context.handler_stack n

      by_ip :
          (o : Option ℕ) (c : Option (Routine V M))
          → NestedEffect (elim o [
            | some n ↦ continues (at_ip (push m₁ v) n)
            | none ↦ elim c [
              | some r ↦
                  signals (record m₁ { current_coroutine = some (finish_routine r) }) (returned v)
              | none ↦ fault (push m₁ v) python_error
            ]
          ])
      by_ip (some i) c = kept
      by_ip none (some r) = kept
      by_ip none none = kept

  return_from-NestedEffect :
      (m : Vm V M) (v : V) (fs : List (Frame V M)) (p : Option (ℕ × List Handler))
      → m.context.frames ≡ fs
      → NestedContext m.context
      → Pending (length m.context.frames) p
      → NestedEffect (return_from m v fs p)
  return_from-NestedEffect m v [] p e n h = n
  return_from-NestedEffect m v (f ∷ fs) (some (target, hs)) e n h = h
  return_from-NestedEffect m v (f ∷ fs) none e n h =
      leave_frame-NestedEffect (restore_module (with_frames m fs) f.cross_module_ctx) f v
        (length m.context.frames) (rw (context-restore (with_frames m fs) f.cross_module_ctx) n)

  pub do_return-NestedEffect : (m : Vm V M) → NestedContext m.context → NestedEffect (do_return m)
  unfolding do_return
  do_return-NestedEffect m n = pop-NestedEffect m return_value n (λ s v.
      return_from-NestedEffect (with_stack m s) v m.context.frames _ refl n
        (pending_finally-Pending (length m.context.frames) m.context.handler_stack n))

  finish_return-NestedEffect :
      (m : Vm V M) (fs : List (Frame V M)) (v : V)
      → m.context.frames ≡ fs
      → NestedContext m.context
      → NestedEffect (finish_return m fs v)
  finish_return-NestedEffect m [] v e n = n
  finish_return-NestedEffect m (f ∷ fs) v e n =
      leave_frame-NestedEffect (with_frames m fs) f v (length m.context.frames) n

  finally-NestedEffect :
      (record_of : Error V → V) (m : Vm V M) (e : Option (Error V))
      → NestedContext m.context
      → NestedEffect (finally_with record_of m e)
  finally-NestedEffect record_of m (some e) n =
      by_result (handle_exception record_of e m₁) (handle_exception-Nested record_of e m₁ n)
    where
      m₁ : Vm V M
      m₁ = record m { context = record m.context { deferred_error = none } }

      by_result : (r : Vm V M × Bool) → NestedContext r.0.context → NestedEffect (rethrown e r)
      by_result (x, true) k = k
      by_result (x, false) k = k
  finally-NestedEffect record_of m none n = by_return m.context.deferred_return
    where
      m₁ : Vm V M
      m₁ = with_handlers m (past_gate m.context.handler_stack)

      kept : NestedContext m₁.context
      kept = past_gate-Nested (length m.context.frames) m.context.handler_stack n

      by_return : (o : Option V) → NestedEffect (resume_return m₁ o)
      by_return none = kept
      by_return (some v) =
          finish_return-NestedEffect
            (record m₁ { context = record m₁.context { deferred_return = none } }) m.context.frames
            v refl kept

  pub do_finally_end-NestedEffect :
      (record_of : Error V → V) (m : Vm V M)
      → NestedContext m.context
      → NestedEffect (do_finally_end record_of m)
  unfolding do_finally_end
  do_finally_end-NestedEffect record_of m n =
      finally-NestedEffect record_of m m.context.deferred_error n
