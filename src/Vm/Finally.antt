-- ===== src/Vm/Finally.antt =====
-- `return` and the finally blocks: what RETURN parks, what FINALLY_END resumes, and what they skip.
use nodus.Prelude.{
  ℕ, suc, ◌≡◌, refl, ap, ◌∙◌, false, Option, none, some, List, [], ◌∷◌, length, ◌==◌, arith,
}
use nodus.Vm.State.{
  Vm, Frame, Handler, Error, runtime, stack_underflow, restore_module, at_ip, push, with_stack,
}
use nodus.Vm.Exceptions.{drop_handlers, with_handlers, with_frames}
use nodus.Vm.Frames.{
  Effect, continues, signals, raises, leave_frame, pending_finally, return_from, return_value,
  do_return, past_gate, finish_return, resume_return, finally_with, do_finally_end,
}

module _ {V M : Type 0} where
  -- The instruction goes on at `back`, with these values, frames and handlers.
  abbrev pub Goes : ℕ → List V → List (Frame V M) → List Handler → Effect V M → Type 0
  Goes back s fs hs (continues m) =
      (m.context.ip ≡ back)
      × (m.context.stack ≡ s)
      × (m.context.frames ≡ fs)
      × (m.context.handler_stack ≡ hs)
  Goes back s fs hs (signals m x) = ⊥
  Goes back s fs hs (raises m e) = ⊥

  -- The machine that RETURN leaves for the finally block of `h`.
  abbrev pub parked : Vm V M → Handler → List Handler → V → List V → Vm V M
  parked m h hs v s = record m {
    context = record m.context {
      stack = s;
      handler_stack = hs;
      deferred_return = some v;
      deferred_return_depth = length hs;
      ip = h.finally_ip;
    };
  }

  -- The machine that goes on in the caller.
  abbrev pub left : Vm V M → List (Frame V M) → V → ℕ → Vm V M
  left m fs v back =
      at_ip
        (push (with_handlers (with_frames m fs) (drop_handlers (length fs) m.context.handler_stack))
          v)
        back

  leave_frame-back :
      (m : Vm V M) (f : Frame V M) (fs : List (Frame V M)) (v : V) (back : ℕ)
      → f.return_ip ≡ some back
      → leave_frame (with_frames m fs) f v ≡ continues (left m fs v back)
  leave_frame-back m f fs v back e = rw e refl

  pop-top :
      (m : Vm V M) (v : V) (s : List V)
      → m.context.stack ≡ v ∷ s
      → do_return m ≡ return_value (with_stack m s) v
  unfolding do_return
  pop-top m v s e =
      ap
        (λ t. elim t [
          | [] ↦ raises m (runtime stack_underflow)
          | x ∷ rest ↦ return_value (with_stack m rest) x
        ])
        e

  on_frames :
      (m : Vm V M) (v : V) {fs : List (Frame V M)}
      → m.context.frames ≡ fs
      → return_value m v ≡ return_from m v fs (pending_finally (length fs) m.context.handler_stack)
  on_frames m v e =
      ap (λ x. return_from m v x (pending_finally (length x) m.context.handler_stack)) e

  pub return-parks :
      (m : Vm V M) (h : Handler) (hs : List Handler) (f : Frame V M) (fs : List (Frame V M)) (v : V)
      (s : List V)
      → m.context.stack ≡ v ∷ s
      → m.context.frames ≡ f ∷ fs
      → m.context.handler_stack ≡ h ∷ hs
      → h.frame_depth ≡ suc (length fs)
      → (h.finally_ip == 0) ≡ false
      → do_return m ≡ continues (parked m h hs v s)
  return-parks m h hs f fs v s stack frames handlers depth some_finally =
      pop-top m v s stack
      ∙ on_frames (with_stack m s) v frames
      ∙ ap (λ x. return_from (with_stack m s) v (f ∷ fs) (pending_finally (suc (length fs)) x))
          handlers
      ∙ ap (return_from (with_stack m s) v (f ∷ fs)) pending
    where
      pending : pending_finally (suc (length fs)) (h ∷ hs) ≡ some (h.finally_ip, hs)
      pending = ground arith

  pub return-leaves :
      (m : Vm V M) (f : Frame V M) (fs : List (Frame V M)) (v : V) (s : List V) (back : ℕ)
      → m.context.stack ≡ v ∷ s
      → m.context.frames ≡ f ∷ fs
      → pending_finally (suc (length fs)) m.context.handler_stack ≡ none
      → f.return_ip ≡ some back
      → do_return m
        ≡ continues (left (restore_module (with_stack m s) f.cross_module_ctx) fs v back)
  return-leaves m f fs v s back stack frames no_finally back_at =
      pop-top m v s stack
      ∙ on_frames (with_stack m s) v frames
      ∙ ap (return_from (with_stack m s) v (f ∷ fs)) no_finally
      ∙ by_module f.cross_module_ctx
    where
      by_module :
          (c : Option M)
          → leave_frame (restore_module (with_frames (with_stack m s) fs) c) f v
            ≡ continues (left (restore_module (with_stack m s) c) fs v back)
      by_module none = leave_frame-back (with_stack m s) f fs v back back_at
      by_module (some c) =
          leave_frame-back (record m { context = record m.context { stack = s }; module_ctx = c }) f
            fs v back back_at

  -- FINALLY_END has taken the parked value.
  abbrev pub returning : Vm V M → Vm V M
  returning m = record m {
    context = record m.context {
      handler_stack = past_gate m.context.handler_stack;
      deferred_return = none;
    };
  }

  pub finally_end-leaves :
      (record_of : Error V → V) (m : Vm V M) (f : Frame V M) (fs : List (Frame V M)) (v : V)
      (back : ℕ)
      → m.context.deferred_error ≡ none
      → m.context.deferred_return ≡ some v
      → m.context.frames ≡ f ∷ fs
      → f.return_ip ≡ some back
      → do_finally_end record_of m ≡ continues (left (returning m) fs v back)
  unfolding do_finally_end
  finally_end-leaves record_of m f fs v back no_error return frames back_at =
      ap (finally_with record_of m) no_error
      ∙ ap (resume_return (with_handlers m (past_gate m.context.handler_stack))) return
      ∙ ap (λ x. finish_return (returning m) x v) frames
      ∙ leave_frame-back (returning m) f fs v back back_at
