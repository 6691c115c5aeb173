-- ===== src/Vm/Catch.antt =====
-- How `handle_exception` enters a catch block.
use mathlib.Core.Path.{subst}
use nodus.Prelude.{
  ℕ, suc, ◌≤◌, ◌≡◌, refl, sym, ap, ◌∙◌, Bool, true, false, List, [], ◌∷◌, ◌++◌, length,
  length-append, ltb, ◌==◌, arith, if◌then◌else◌,
}
use nodus.Vm.State.{Vm, Frame, Handler, Error, catch_at, restore_module}
use nodus.Vm.Exceptions.{
  keep, drop_frames, unwind_to, discard_stale_deferrals, enter_catch, handle_on, handle_exception,
  with_handlers, with_frames,
}
use nodus.Vm.Nesting.{Nested, NestedContext, context-restore}

-- The bottom of a stack is what `l[:n]` keeps of it.
keep-all : {A : Type 0} (n : ℕ) (xs : List A) → length xs ≤ n → keep n xs ≡ xs
unfolding keep
keep-all n [] h = refl
keep-all n (x ∷ xs) h = ground arith

keep-append : {A : Type 0} (top bottom : List A) → keep (length bottom) (top ++ bottom) ≡ bottom
unfolding keep
keep-append [] bottom = keep-all (length bottom) bottom (omega arith)
keep-append (x ∷ top) bottom = ground (arith, length-append top bottom, keep-append top bottom)

module _ {V M : Type 0} where
  stack-drop_frames :
      (depth : ℕ) (fs : List (Frame V M)) (m : Vm V M)
      → (drop_frames depth fs m).context.stack ≡ m.context.stack
  unfolding drop_frames
  stack-drop_frames depth [] m = refl
  stack-drop_frames depth (f ∷ fs) m = ground (
    arith,
    stack-drop_frames depth fs (restore_module (with_frames m fs) f.cross_module_ctx),
    context-restore (with_frames m fs) f.cross_module_ctx,
  )

  length-drop_frames :
      (depth : ℕ) (fs : List (Frame V M)) (m : Vm V M)
      → depth ≤ length fs
      → m.context.frames ≡ fs
      → length (drop_frames depth fs m).context.frames ≡ depth
  unfolding drop_frames
  length-drop_frames depth [] m h e = omega arith
  length-drop_frames depth (f ∷ fs) m h e =
      by_test (ltb depth (suc (length fs))) refl (length-drop_frames depth fs n)
    where
      n : Vm V M
      n = restore_module (with_frames m fs) f.cross_module_ctx

      by_test :
          (b : Bool)
          → ltb depth (suc (length fs)) ≡ b
          → (depth ≤ length fs
              → n.context.frames ≡ fs
              → length (drop_frames depth fs n).context.frames ≡ depth)
          → length (if b then drop_frames depth fs n else m).context.frames ≡ depth
      by_test true t ih =
          ih (ground arith)
            (ap (λ c. c.frames) (context-restore (with_frames m fs) f.cross_module_ctx))
      by_test false t ih = ground arith

  pub length-unwind_to :
      (frame_depth stack_depth : ℕ) (m : Vm V M)
      → frame_depth ≤ length m.context.frames
      → length (unwind_to frame_depth stack_depth m).context.frames ≡ frame_depth
  unfolding unwind_to
  length-unwind_to frame_depth stack_depth m h =
      length-drop_frames frame_depth m.context.frames m h refl

  stack-unwind_to :
      (frame_depth : ℕ) (m : Vm V M) (top bottom : List V)
      → m.context.stack ≡ top ++ bottom
      → (unwind_to frame_depth (length bottom) m).context.stack ≡ bottom
  unfolding unwind_to
  stack-unwind_to frame_depth m top bottom e =
      ap (keep (length bottom)) (stack-drop_frames frame_depth m.context.frames m ∙ e)
      ∙ keep-append top bottom

  ap-if :
      {A : Type 0} (f : Vm V M → A) (b : Bool) (x y : Vm V M)
      → f x ≡ f y
      → f (if b then x else y) ≡ f y
  ap-if f true x y e = e
  ap-if f false x y e = refl

  frames-enter_catch :
      (record_of : Error V → V) (e : Error V) (t : ℕ) (h : Handler) (m : Vm V M)
      → h.frame_depth ≤ length m.context.frames
      → length (enter_catch record_of e t h m).context.frames ≡ h.frame_depth
  unfolding discard_stale_deferrals
  frames-enter_catch record_of e t h m le =
      ap-if (λ n. length n.context.frames) (h.finally_ip == 0) _ _ refl
      ∙ length-unwind_to h.frame_depth h.stack_depth m le

  stack-enter_catch :
      (record_of : Error V → V) (e : Error V) (t : ℕ) (h : Handler) (m : Vm V M)
      (top bottom : List V)
      → m.context.stack ≡ top ++ bottom
      → h.stack_depth ≡ length bottom
      → (enter_catch record_of e t h m).context.stack ≡ record_of e ∷ bottom
  unfolding discard_stale_deferrals
  stack-enter_catch record_of e t h m top bottom split depth =
      ap-if (λ n. n.context.stack) (h.finally_ip == 0) _ _ refl
      ∙ ap (λ n. record_of e ∷ (unwind_to h.frame_depth n m).context.stack) depth
      ∙ ap (λ s. record_of e ∷ s) (stack-unwind_to h.frame_depth m top bottom split)

  handle_on-catch :
      (record_of : Error V → V) (e : Error V) (m : Vm V M) (h : Handler) (hs : List Handler) (t : ℕ)
      → m.cancelling ≡ false
      → h.entry ≡ catch_at t
      → handle_on record_of e m (h ∷ hs) ≡ (enter_catch record_of e t h (with_handlers m hs), true)
  unfolding handle_on
  handle_on-catch record_of e m h hs t going at_catch = rw (at_catch, going) refl

  -- The machine after the exception runs the catch block at `t` in the frame, and on the stack, that
  -- `h` was set up on, with the error's record pushed.
  abbrev pub Caught : V → ℕ → Handler → List V → Vm V M × Bool → Type 0
  Caught x t h bottom r =
      (r.1 ≡ true)
      × (r.0.context.ip ≡ t)
      × (length r.0.context.frames ≡ h.frame_depth)
      × (r.0.context.stack ≡ x ∷ bottom)

  -- While no cancellation is under way, an error whose innermost handler has a catch block at
  -- `t` makes the machine go on at `t`, with exactly as many frames as the handler was set up
  -- on, and on the stack the values that lay there then with the error's record on top. The
  -- handlers are nested in the frames, and the stack is at least as high as then.
  pub caught :
      (record_of : Error V → V) (e : Error V) (m : Vm V M) (h : Handler) (hs : List Handler) (t : ℕ)
      (top bottom : List V)
      → m.cancelling ≡ false
      → NestedContext m.context
      → m.context.handler_stack ≡ h ∷ hs
      → h.entry ≡ catch_at t
      → m.context.stack ≡ top ++ bottom
      → h.stack_depth ≡ length bottom
      → Caught (record_of e) t h bottom (handle_exception record_of e m)
  unfolding handle_exception
  caught record_of e m h hs t top bottom going nested handlers at_catch split depth =
      subst (Caught (record_of e) t h bottom) (sym reached) (
        refl,
        refl,
        frames-enter_catch record_of e t h n (nested_handlers.0),
        stack-enter_catch record_of e t h n top bottom split depth,
      )
    where
      n : Vm V M
      n = with_handlers m hs

      nested_handlers : Nested (length m.context.frames) (h ∷ hs)
      nested_handlers = subst (Nested (length m.context.frames)) handlers nested

      reached : handle_exception record_of e m ≡ (enter_catch record_of e t h n, true)
      reached =
          ap (handle_on record_of e m) handlers
          ∙ handle_on-catch record_of e m h hs t going at_catch
