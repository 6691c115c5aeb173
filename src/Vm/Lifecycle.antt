-- ===== src/Vm/Lifecycle.antt =====
-- The state of a coroutine when `resume` has given a value.
use nodus.Prelude.{◌≡◌, ◌⊎◌, Option, none, some}
use nodus.Tasks.{State}
use nodus.Vm.State.{Vm, Routine}
use nodus.Vm.Resume.{Outcome, gives, fails, Resumed}

module _ {V M : Type 0} where
  -- With a value given, the coroutine is suspended, or finished with that value as its result.
  abbrev pub Rests : Outcome V → Routine V M → Type 0
  Rests (gives (some v)) c =
      (c.state ≡ State.suspended) ⊎ ((c.state ≡ State.finished) × (c.last_result ≡ some v))
  Rests (gives none) c = Unit
  Rests (fails e) c = Unit

  abbrev RestsOnce : Option (Resumed V M) → Type 0
  RestsOnce none = Unit
  RestsOnce (some r) = Rests r.2 r.1
