-- ===== src/Vm/Exceptions.antt =====
-- Exceptions: `setup_try`, `pop_try`, `_unwind_to`, `_discard_stale_deferrals` and
-- `handle_exception`.
use nodus.Prelude.{
  ℕ, suc, ◌-◌, Bool, true, false, Option, none, some, List, [], ◌∷◌, length, ltb, ◌==◌,
  if◌then◌else◌,
}
use nodus.Vm.State.{Vm, Frame, Handler, finally_gate, catch_at, Error, restore_module, at_ip, push}

-- `l[:n]` of a stack, whose top stands first here
unfoldable pub keep : {A : Type 0} → ℕ → List A → List A
keep n [] = []
keep n (x ∷ xs) = let rest = keep n xs in if ltb (length xs) n then x ∷ xs else rest

-- `while handler_stack and handler_stack[-1][3] > depth: handler_stack.pop()`
unfoldable pub drop_handlers : ℕ → List Handler → List Handler
drop_handlers depth [] = []
drop_handlers depth (h ∷ hs) =
    let rest = drop_handlers depth hs in if ltb depth h.frame_depth then rest else h ∷ hs

abbrev pub unless : {A : Type 0} → Bool → Option A → Option A
unless true o = none
unless false o = o

module _ {V M : Type 0} where
  abbrev pub with_frames : Vm V M → List (Frame V M) → Vm V M
  with_frames m fs = record m { context = record m.context { frames = fs } }

  abbrev pub with_handlers : Vm V M → List Handler → Vm V M
  with_handlers m hs = record m { context = record m.context { handler_stack = hs } }

  -- `while len(self.frames) > depth`
  unfoldable pub drop_frames : ℕ → List (Frame V M) → Vm V M → Vm V M
  drop_frames depth [] m = with_frames m []
  drop_frames depth (f ∷ fs) m =
      let rest = drop_frames depth fs (restore_module (with_frames m fs) f.cross_module_ctx) in
      if ltb depth (suc (length fs)) then rest else m

  -- VM._unwind_to
  unfoldable pub unwind_to : ℕ → ℕ → Vm V M → Vm V M
  unfolding drop_frames
  unwind_to frame_depth stack_depth m =
      let m₁ = drop_frames frame_depth m.context.frames m in
      record m₁ {
        context = record m₁.context {
          handler_stack = drop_handlers (length m₁.context.frames) m₁.context.handler_stack;
          stack = keep stack_depth m₁.context.stack;
        };
      }

  -- VM._discard_stale_deferrals
  unfoldable pub discard_stale_deferrals : Vm V M → Vm V M
  discard_stale_deferrals m =
      let depth = length m.context.handler_stack in
      record m {
        context = record m.context {
          deferred_error =
              unless (ltb depth m.context.deferred_error_depth) m.context.deferred_error;
          deferred_return =
              unless (ltb depth m.context.deferred_return_depth) m.context.deferred_return;
        };
      }

  -- the jump into a finally block that the error waits for
  abbrev pub defer_error : Error V → Handler → Vm V M → Vm V M
  defer_error e h m =
      let m₁ = unwind_to h.frame_depth h.stack_depth m in
      record m₁ {
        context = record m₁.context {
          deferred_error = some e;
          deferred_error_depth = length m₁.context.handler_stack;
          ip = h.finally_ip;
        };
      }

  -- the gate that a catch block with a finally block leaves
  abbrev pub gate : Handler → Vm V M → Vm V M
  gate h m =
      if h.finally_ip == 0
      then m
      else with_handlers m (
          record {
            entry = finally_gate;
            finally_ip = h.finally_ip;
            stack_depth = length m.context.stack - 1;
            frame_depth = length m.context.frames;
          }
          ∷ m.context.handler_stack)

  -- the jump into a catch block, with the error's record on the stack
  abbrev pub enter_catch : (Error V → V) → Error V → ℕ → Handler → Vm V M → Vm V M
  enter_catch record_of e target h m =
      at_ip
        (gate h
          (push (discard_stale_deferrals (unwind_to h.frame_depth h.stack_depth m)) (record_of e)))
        target

  -- VM.handle_exception, on the handlers that are left; `none` where no handler takes the error
  unfoldable pub handle_on : (Error V → V) → Error V → Vm V M → List Handler → Vm V M × Bool
  unfolding unwind_to discard_stale_deferrals
  handle_on record_of e m [] = (with_handlers m [], false)
  handle_on record_of e m (h ∷ hs) =
      let skipped = handle_on record_of e m hs in
      let m₁ = with_handlers m hs in
      elim h.entry [
        | finally_gate ↦ (defer_error e h m₁, true)
        | catch_at target ↦
            if m.cancelling
            then (if h.finally_ip == 0 then skipped else (defer_error e h m₁, true))
            else (enter_catch record_of e target h m₁, true)
      ]

  unfoldable pub handle_exception : (Error V → V) → Error V → Vm V M → Vm V M × Bool
  unfolding handle_on
  handle_exception record_of e m = handle_on record_of e m m.context.handler_stack
