-- ===== src/Waiting/Numbers.antt =====
-- The numbers that `spawn` gives to tasks.
use mathlib.Core.Path.{subst}
use nodus.Prelude.{
  ℕ, ◌<◌, ◌∙◌, ap, ◌≡◌, inl, inr, refl, sym, Bool, true, false, Option, none, some, ◌==◌, arith,
  if◌then◌else◌, ==_iff, Option-cases,
}
use nodus.Tasks.{World, is_finished}
use nodus.Tasks.Laws.{update_self, update_ne}
use nodus.Waiting.{number, ensure_metadata, spawn}

-- A number that was given out is below the next one and leads to its coroutine, and to no other.
abbrev pub NumberOk : {V E : Type 0} → World V E → ℕ → Option ℕ → Type 0
NumberOk w c none = Unit
NumberOk w c (some i) = (i < w.next_id) × (w.tasks i ≡ some c)

abbrev pub Numbered : {V E : Type 0} → World V E → Type 0
Numbered w = (c : ℕ) → NumberOk w c (w.coroutines c).id

module _ {V E : Type 0} (w : World V E) (c : ℕ) where
  number-NumberOk : (d : ℕ) (o : Option ℕ) → NumberOk w d o → NumberOk (number w c) d o
  number-NumberOk d none h = tt
  number-NumberOk d (some i) (lt, e) =
      (omega arith, update_ne w.tasks w.next_id i (some c) (λ (k : w.next_id ≡ i). omega arith) ∙ e)

  number-Numbered : Numbered w → Numbered (number w c)
  number-Numbered h d = by_test (c == d) refl
    where
      by_test :
          (b : Bool)
          → (c == d) ≡ b
          → NumberOk
              (number w c)
              d
              (if b then record (w.coroutines c) { id = some w.next_id } else w.coroutines d).id
      by_test true e =
          (omega arith, update_self w.tasks w.next_id (some c) ∙ ap some ((==_iff c d).0 e))
      by_test false e = number-NumberOk d (w.coroutines d).id (h d)

  ensure_new : (w.coroutines c).id ≡ none → ensure_metadata w c ≡ number w c
  unfolding ensure_metadata
  ensure_new e = ground arith

  ensure_old : (i : ℕ) → (w.coroutines c).id ≡ some i → ensure_metadata w c ≡ w
  unfolding ensure_metadata
  ensure_old i e = ground arith

  ensure-Numbered : Numbered w → Numbered (ensure_metadata w c)
  ensure-Numbered h = elim (Option-cases (w.coroutines c).id) [
    | inl e ↦ subst Numbered (sym (ensure_new e)) (number-Numbered h)
    | inr k ↦ subst Numbered (sym (ensure_old k.0 k.1)) h
  ]

  spawn-Numbered_by :
      (b : Bool) → is_finished (w.coroutines c).state ≡ b → Numbered w → Numbered (spawn w c)
  unfolding spawn
  spawn-Numbered_by true e h = rw e h
  spawn-Numbered_by false e h = rw e (ensure-Numbered h)

  -- Spawning keeps every task under a number of its own: a number that a task has is below the next
  -- one to be given out and the table of tasks leads from it back to that task.
  pub spawn-Numbered : Numbered w → Numbered (spawn w c)
  spawn-Numbered = spawn-Numbered_by (is_finished (w.coroutines c).state) refl
