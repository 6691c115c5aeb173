-- ===== src/Vm/Twice.antt =====
-- A finally block that follows a catch block which ended normally, and throws.
use nodus.Prelude.{ℕ, suc, ◌≡◌, refl, ap, ◌∙◌, none, some, List, ◌∷◌, get_elem?}
use nodus.Vm.State.{Vm, Handler, thrown, finally_gate, at_ip, advance, push}
use nodus.Vm.Exceptions.{handle_on, handle_exception, defer_error, with_handlers}
use nodus.Vm.Frames.{Host, halted, signals}
use nodus.Vm.Step.{Instr, jump, push_const, throw, step, settled, delivered, resume_with, execute}

-- the gate that a catch block with the finally block at `t` runs under
abbrev pub gate_to : ℕ → ℕ → ℕ → Handler
gate_to t stack_depth frame_depth = record {
  entry = finally_gate;
  finally_ip = t;
  stack_depth = stack_depth;
  frame_depth = frame_depth;
}

module _ {V M : Type 0} where
  execute-at :
      (host : Host V M) (code : M → List (Instr V)) (fuel : ℕ) (m : Vm V M) (i : Instr V)
      → get_elem? (code m.module_ctx) m.context.ip ≡ some i
      → execute host code (suc fuel) m
        ≡ resume_with host (execute host code fuel) (settled host (step host m i))
  unfolding execute
  execute-at host code fuel m i e =
      ap
        (λ o.
          resume_with host (execute host code fuel)
            (elim o [ none ↦ signals m halted | some j ↦ settled host (step host m j) ]))
        e

  -- A catch block that ends normally jumps to its finally block at `t` with its gate still on
  -- top of the handlers; if that block starts by throwing a constant, the run comes back to
  -- the start of the block with the error parked.
  pub finally_starts_again :
      (host : Host V M) (code : M → List (Instr V)) (fuel : ℕ) (m : Vm V M) (v : V)
      (t stack_depth frame_depth : ℕ) (hs : List Handler)
      → m.context.handler_stack ≡ gate_to t stack_depth frame_depth ∷ hs
      → get_elem? (code m.module_ctx) m.context.ip ≡ some (jump t)
      → get_elem? (code m.module_ctx) t ≡ some (push_const v)
      → get_elem? (code m.module_ctx) (suc t) ≡ some throw
      → (r : Vm V M) × (execute host code (suc (suc (suc fuel))) m ≡ execute host code fuel r)
        × (r.context.ip ≡ t)
        × (r.context.deferred_error ≡ some (thrown v))
  unfolding handle_exception step
  finally_starts_again host code fuel m v t stack_depth frame_depth hs handlers at_jump at_push
        at_throw =
      (
        defer_error (thrown v) (gate_to t stack_depth frame_depth) (with_handlers second hs),
        execute-at host code (suc (suc fuel)) m (jump t) at_jump
            ∙ execute-at host code (suc fuel) (at_ip m t) (push_const v) at_push
            ∙ execute-at host code fuel (advance (push (at_ip m t) v)) throw at_throw
            ∙ ap
                (λ x.
                  resume_with host (execute host code fuel)
                    (delivered host (thrown v) (handle_on host.error_record (thrown v) second x)))
                handlers,
        refl,
        refl,
      )
    where
      second : Vm V M
      second = at_ip m (suc t)
