-- ===== src/Vm/Cancel.antt =====
-- `handle_exception` while a coroutine is cancelled, which enters finally blocks only.
use nodus.Prelude.{
  ℕ, ◌≡◌, refl, ap, ◌⊎◌, inl, inr, Bool, true, false, not, ◌||◌, List, [], ◌∷◌, ◌==◌, if◌then◌else◌,
  All, arith,
}
use mathlib.Core.Path.{subst, sym}
use nodus.Vm.State.{Vm, Entry, Handler, Error, finally_gate, catch_at}
use nodus.Vm.Exceptions.{defer_error, enter_catch, handle_on, handle_exception, with_handlers}
use nodus.Vm.Frames.{is_gate}

-- The error waits for the finally block of the handler, if it has one.
abbrev pub has_cleanup : Handler → Bool
has_cleanup h = is_gate h.entry || not (h.finally_ip == 0)

-- what `handle_on` does with a handler, by its entry and whether it has no finally block
abbrev choose : {A : Type 0} → Bool → Entry → Bool → A → A → (ℕ → A) → A
choose cancelling x without skipped deferred caught = elim x [
  | finally_gate ↦ deferred
  | catch_at target ↦ if cancelling then (if without then skipped else deferred) else caught target
]

choose-stop :
    {A : Type 0} (x : Entry) (without : Bool) (skipped deferred : A) (caught : ℕ → A)
    → (is_gate x || not without) ≡ true
    → choose true x without skipped deferred caught ≡ deferred
choose-stop finally_gate without skipped deferred caught t = refl
choose-stop (catch_at n) false skipped deferred caught t = refl
choose-stop (catch_at n) true skipped deferred caught t = ground arith

choose-skip :
    {A : Type 0} (x : Entry) (without : Bool) (skipped deferred : A) (caught : ℕ → A)
    → (is_gate x || not without) ≡ false
    → choose true x without skipped deferred caught ≡ skipped
choose-skip finally_gate without skipped deferred caught t = ground arith
choose-skip (catch_at n) true skipped deferred caught t = refl
choose-skip (catch_at n) false skipped deferred caught t = ground arith

-- The handlers are those above `h`, none with a finally block, then `h`, then `below`.
pub data FirstCleanup (h : Handler) (below : List Handler) : List Handler → Type 0 where
  here : has_cleanup h ≡ true → FirstCleanup h below (h ∷ below)
  under :
      {x : Handler} {hs : List Handler}
      → has_cleanup x ≡ false
      → FirstCleanup h below hs
      → FirstCleanup h below (x ∷ hs)

module _ {V M : Type 0} where
  -- Either the error waits for the first finally block, with the handlers below it left, or there is
  -- none and no handler is left.
  abbrev pub Unwound : Error V → Vm V M → List Handler → Vm V M × Bool → Type 0
  Unwound e m hs r =
      ((h : Handler) × (below : List Handler) × FirstCleanup h below hs
        × (r ≡ (defer_error e h (with_handlers m below), true)))
      ⊎ (All (λ h. has_cleanup h ≡ false) hs × (r ≡ (with_handlers m [], false)))

  handle_on-cancelled :
      (record_of : Error V → V) (e : Error V) (m : Vm V M) (h : Handler) (hs : List Handler)
      → m.cancelling ≡ true
      → handle_on record_of e m (h ∷ hs)
        ≡ choose true h.entry
            (h.finally_ip == 0)
            (handle_on record_of e m hs)
            (defer_error e h (with_handlers m hs), true)
            (λ t. (enter_catch record_of e t h (with_handlers m hs), true))
  unfolding handle_on
  handle_on-cancelled record_of e m h hs c =
      ap
        (λ b.
          choose b h.entry (h.finally_ip == 0) (handle_on record_of e m hs)
            (defer_error e h (with_handlers m hs), true)
            (λ t. (enter_catch record_of e t h (with_handlers m hs), true)))
        c

  below :
      (e : Error V) (m : Vm V M) {h : Handler} {hs : List Handler} {r : Vm V M × Bool}
      → has_cleanup h ≡ false
      → Unwound e m hs r
      → Unwound e m (h ∷ hs) r
  below e m bare (inl (x, rest, first, done)) = inl (x, rest, under bare first, done)
  below e m bare (inr (bare_all, done)) = inr ((bare, bare_all), done)

  cancelled_on :
      (record_of : Error V → V) (e : Error V) (m : Vm V M) (hs : List Handler)
      → m.cancelling ≡ true
      → Unwound e m hs (handle_on record_of e m hs)
  unfolding handle_on
  cancelled_on record_of e m [] c = inr (tt, refl)
  cancelled_on record_of e m (h ∷ hs) c =
      subst (Unwound e m (h ∷ hs)) (sym (handle_on-cancelled record_of e m h hs c))
        (by_test (has_cleanup h) refl (cancelled_on record_of e m hs c))
    where
      skipped : Vm V M × Bool
      skipped = handle_on record_of e m hs

      deferred : Vm V M × Bool
      deferred = (defer_error e h (with_handlers m hs), true)

      caught : ℕ → Vm V M × Bool
      caught t = (enter_catch record_of e t h (with_handlers m hs), true)

      by_test :
          (b : Bool)
          → has_cleanup h ≡ b
          → Unwound e m hs skipped
          → Unwound e m (h ∷ hs) (choose true h.entry (h.finally_ip == 0) skipped deferred caught)
      by_test true t rest =
          inl (h, hs, here t, choose-stop h.entry (h.finally_ip == 0) skipped deferred caught t)
      by_test false t rest =
          subst (Unwound e m (h ∷ hs))
            (sym (choose-skip h.entry (h.finally_ip == 0) skipped deferred caught t))
            (below e m t rest)

  pub cancelled :
      (record_of : Error V → V) (e : Error V) (m : Vm V M)
      → m.cancelling ≡ true
      → Unwound e m m.context.handler_stack (handle_exception record_of e m)
  unfolding handle_exception
  cancelled record_of e m c = cancelled_on record_of e m m.context.handler_stack c
