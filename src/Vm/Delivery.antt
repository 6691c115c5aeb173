-- ===== src/Vm/Delivery.antt =====
-- Errors that a coroutine without handlers is resumed or cancelled with.
use nodus.Prelude.{ℕ, ◌≡◌, refl, ap, ◌∙◌, false, not, ◌&&◌, none, some, List, [], if◌then◌else◌}
use nodus.Tasks.{State}
use nodus.Vm.State.{
  Vm, Routine, Context, Error, runtime, resume_running, load_coroutine_context, restore_module,
  restore_execution_context, ip_or_start, is_cancelling,
}
use nodus.Vm.Exceptions.{handle_exception, handle_on, with_handlers}
use nodus.Vm.Frames.{Host}
use nodus.Vm.Step.{Instr}
use nodus.Vm.Nesting.{context-restore}
use nodus.Vm.Resume.{
  fails, Unwound, back_to, next_run, with_pending, after_delivery, resume_in, resume, unwound,
  unwind_from, unwind_cancelled_coroutine,
}

module _ {V M : Type 0} where
  handlers-load :
      (m : Vm V M) (c : Routine V M)
      → (load_coroutine_context m c).context.handler_stack ≡ c.saved.handler_stack
  unfolding load_coroutine_context
  handlers-load m c = ap (λ x. x.handler_stack) (context-restore _ c.module_ctx)

  no_handler :
      (record_of : Error V → V) (m : Vm V M) (c : Routine V M) (e : Error V)
      → c.saved.handler_stack ≡ []
      → handle_exception record_of e (load_coroutine_context m c)
        ≡ (with_handlers (load_coroutine_context m c) [], false)
  unfolding handle_exception
  no_handler record_of m c e bare =
      ap (handle_on record_of e (load_coroutine_context m c)) (handlers-load m c ∙ bare)

module _ {V M : Type 0} (host : Host V M) (code : M → List (Instr V)) (fuel : ℕ) where
  -- A suspended coroutine without handlers, which is no step of a workflow, that is resumed
  -- with the failure of a task it waited for fails with it, but stays in the state `running`:
  -- resuming it again is refused as if it ran.
  pub joined_failure_sticks :
      (m : Vm V M) (c : Routine V M) (e : Error V)
      → c.state ≡ State.suspended
      → c.closure.is_step_body ≡ false
      → c.pending_wait_error ≡ some e
      → c.saved.handler_stack ≡ []
      → (n : Vm V M) × (d : Routine V M) × (resume host code fuel m c ≡ some (n, d, fails e))
        × (resume host code fuel n d ≡ some (n, d, fails (runtime resume_running)))
  unfolding resume
  joined_failure_sticks m c e asleep plain pending bare = (
    back_to m (with_handlers (load_coroutine_context m d) []),
    d,
    ap (resume_in host code fuel m c) asleep
        ∙ ap
            (λ b.
              if b && not c.step_authorized
              then some (m, c, fails (runtime nodus.Vm.State.step_entry))
              else next_run host code fuel m c)
            plain
        ∙ ap (with_pending host code fuel m d) pending
        ∙ ap (after_delivery host code fuel m d e) (no_handler host.error_record m d e bare),
    refl,
  )
    where
      d : Routine V M
      d = record c { state = State.running; pending_wait_error = none }

  -- Unwinding a cancelled coroutine that has no handlers always ends, with no error, and
  -- leaves the machine in the coroutine's module context, not in the caller's.
  pub unwind_keeps_module :
      (m : Vm V M) (c : Routine V M) (e : Error V) (x : M)
      → c.saved.handler_stack ≡ []
      → c.module_ctx ≡ some x
      → (r : Unwound V M) × (unwind_cancelled_coroutine host code fuel m c e ≡ some r)
        × (r.0.module_ctx ≡ x)
        × (r.2 ≡ none)
  unfolding unwind_cancelled_coroutine
  unwind_keeps_module m c e x bare foreign = (
    unwound m (with_handlers (load_coroutine_context m d) []) d none,
    ap (unwind_from host code fuel m d) (no_handler host.error_record m d e bare),
    ap (λ o. (load_coroutine_context m (record d { module_ctx = o })).module_ctx) foreign,
    refl,
  )
    where
      d : Routine V M
      d = record c { cancelling = some e }
