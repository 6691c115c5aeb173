-- ===== src/Vm/Cleanup.antt =====
-- Which finally blocks a `return` runs, and which module its caller goes on in.
use mathlib.Core.Path.{subst}
use nodus.Prelude.{
  ℕ, suc, ◌≡◌, ◌≢◌, refl, sym, ap, ◌∙◌, false, Option, none, some, List, ◌∷◌, length, arith,
}
use nodus.Vm.State.{Vm, Frame, Handler, Error, restore_module, with_stack}
use nodus.Vm.Exceptions.{drop_handlers}
use nodus.Vm.Frames.{
  Effect, continues, signals, raises, pending_finally, do_return, past_gate, is_gate,
  do_finally_end,
}
use nodus.Vm.Finally.{Goes, parked, left, return-parks, return-leaves, finally_end-leaves}

drop_handlers-own :
    (depth : ℕ) (h : Handler) (hs : List Handler)
    → h.frame_depth ≡ suc depth
    → drop_handlers depth (h ∷ hs) ≡ drop_handlers depth hs
unfolding drop_handlers
drop_handlers-own depth h hs e = ground arith

module _ {V M : Type 0} where
  left-Goes :
      (m : Vm V M) (c : Option M) (fs : List (Frame V M)) (v : V) (back : ℕ) (hs : List Handler)
      → drop_handlers (length fs) m.context.handler_stack ≡ hs
      → Goes back (v ∷ m.context.stack) fs hs (continues (left (restore_module m c) fs v back))
  left-Goes m none fs v back hs e = (refl, refl, refl, e)
  left-Goes m (some c) fs v back hs e = (refl, refl, refl, e)

  -- Let a RETURN run where the innermost handler belongs to the running frame and has a finally
  -- block. It leaves a machine in that block, with its frames kept; and from any machine with these
  -- frames and handlers, the value that this one parked and no error parked, FINALLY_END goes on in
  -- the caller, with the value pushed, the frame popped, and the handlers that were below, without
  -- those on top that belong to the frame. A finally-gate that is the first of the handlers below
  -- is dropped before, whichever frame it belongs to.
  pub return_through_finally :
      (record_of : Error V → V) (m m₁ n : Vm V M) (h : Handler) (hs : List Handler) (f : Frame V M)
      (fs : List (Frame V M)) (v : V) (s : List V) (back : ℕ)
      → m.context.stack ≡ v ∷ s
      → m.context.frames ≡ f ∷ fs
      → m.context.handler_stack ≡ h ∷ hs
      → h.frame_depth ≡ suc (length fs)
      → h.finally_ip ≢ 0
      → f.return_ip ≡ some back
      → do_return m ≡ continues m₁
      → n.context.frames ≡ m₁.context.frames
      → n.context.handler_stack ≡ m₁.context.handler_stack
      → n.context.deferred_return ≡ m₁.context.deferred_return
      → n.context.deferred_error ≡ none
      → (m₁.context.ip ≡ h.finally_ip)
        × (m₁.context.frames ≡ f ∷ fs)
        × Goes back
            (v ∷ n.context.stack)
            fs
            (drop_handlers (length fs) (past_gate hs))
            (do_finally_end record_of n)
  return_through_finally record_of m m₁ n h hs f fs v s back stack frames handlers depth block
        back_at first same_frames same_handlers same_return no_error =
      let into : m₁ ≡ parked m h hs v s =
        ap (λ e. elim e [ continues x ↦ x | _ ↦ m₁ ])
          (sym first ∙ return-parks m h hs f fs v s stack frames handlers depth (ground arith)) in
      let at_frames : m₁.context.frames ≡ f ∷ fs = ap (λ x. x.context.frames) into ∙ frames in
      (
        ap (λ x. x.context.ip) into,
        at_frames,
        subst (Goes back (v ∷ n.context.stack) fs _)
            (sym (
              finally_end-leaves record_of n f fs v back no_error
                (same_return ∙ ap (λ x. x.context.deferred_return) into) (same_frames ∙ at_frames)
                back_at))
            (
              refl,
              refl,
              refl,
              ap (λ x. drop_handlers (length fs) (past_gate x))
                  (same_handlers ∙ ap (λ x. x.context.handler_stack) into),
            ),
      )

  -- Two nested try statements of one function: a RETURN under an inner one without a finally
  -- block, and the FINALLY_END that takes a parked value inside an outer one, both go
  -- straight to the caller, and drop the outer handler, whatever finally block it has.
  pub return_skips_outer_finally :
      (record_of : Error V → V) (m n : Vm V M) (inner outer : Handler) (hs : List Handler)
      (f : Frame V M) (fs : List (Frame V M)) (v : V) (s : List V) (back : ℕ)
      → m.context.stack ≡ v ∷ s
      → m.context.frames ≡ f ∷ fs
      → m.context.handler_stack ≡ inner ∷ outer ∷ hs
      → inner.frame_depth ≡ suc (length fs)
      → inner.finally_ip ≡ 0
      → outer.frame_depth ≡ suc (length fs)
      → f.return_ip ≡ some back
      → n.context.deferred_return ≡ some v
      → n.context.deferred_error ≡ none
      → n.context.frames ≡ f ∷ fs
      → n.context.handler_stack ≡ outer ∷ hs
      → is_gate outer.entry ≡ false
      → Goes back (v ∷ s) fs (drop_handlers (length fs) hs) (do_return m)
        × Goes back
            (v ∷ n.context.stack)
            fs
            (drop_handlers (length fs) hs)
            (do_finally_end record_of n)
  return_skips_outer_finally record_of m n inner outer hs f fs v s back stack frames handlers
        inner_depth bare outer_depth back_at return no_error same_frames below no_gate =
      (
        subst (Goes back (v ∷ s) fs (drop_handlers (length fs) hs))
            (sym (return-leaves m f fs v s back stack frames no_finally back_at))
            (left-Goes (with_stack m s) f.cross_module_ctx fs v back _ all_gone),
        subst (Goes back (v ∷ n.context.stack) fs (drop_handlers (length fs) hs))
            (sym (finally_end-leaves record_of n f fs v back no_error return same_frames back_at))
            (refl, refl, refl, outer_gone),
      )
    where
      no_finally : pending_finally (suc (length fs)) m.context.handler_stack ≡ none
      no_finally = ap (pending_finally (suc (length fs))) handlers ∙ ground arith

      all_gone : drop_handlers (length fs) m.context.handler_stack ≡ drop_handlers (length fs) hs
      all_gone =
          ap (drop_handlers (length fs)) handlers
          ∙ drop_handlers-own (length fs) inner (outer ∷ hs) inner_depth
          ∙ drop_handlers-own (length fs) outer hs outer_depth

      outer_gone :
          drop_handlers (length fs) (past_gate n.context.handler_stack)
          ≡ drop_handlers (length fs) hs
      outer_gone =
          ap (λ x. drop_handlers (length fs) (past_gate x)) below
          ∙ ap (drop_handlers (length fs)) (ground arith)
          ∙ drop_handlers-own (length fs) outer hs outer_depth

  -- The instruction goes on, in this module.
  abbrev pub RunsIn : M → Effect V M → Type 0
  RunsIn c (continues m) = m.module_ctx ≡ c
  RunsIn c (signals m x) = ⊥
  RunsIn c (raises m e) = ⊥

  -- When a frame entered from another module is left, a RETURN with no finally block pending
  -- makes the caller go on in its own module's context, but a FINALLY_END that takes a parked
  -- value leaves the context of the module that ran the finally block.
  pub module_after_return :
      (record_of : Error V → V) (m n : Vm V M) (f : Frame V M) (fs : List (Frame V M)) (c : M)
      (v : V) (s : List V) (back : ℕ)
      → m.context.stack ≡ v ∷ s
      → m.context.frames ≡ f ∷ fs
      → pending_finally (suc (length fs)) m.context.handler_stack ≡ none
      → f.return_ip ≡ some back
      → f.cross_module_ctx ≡ some c
      → n.context.deferred_return ≡ some v
      → n.context.deferred_error ≡ none
      → n.context.frames ≡ f ∷ fs
      → RunsIn c (do_return m) × RunsIn n.module_ctx (do_finally_end record_of n)
  module_after_return record_of m n f fs c v s back stack frames no_finally back_at foreign return
        no_error same_frames =
      (
        subst (RunsIn c) (sym (return-leaves m f fs v s back stack frames no_finally back_at))
            (ap (λ x. (restore_module (with_stack m s) x).module_ctx) foreign),
        subst (RunsIn n.module_ctx)
            (sym (finally_end-leaves record_of n f fs v back no_error return same_frames back_at))
            refl,
      )
