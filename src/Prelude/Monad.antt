-- ===== src/Prelude/Monad.antt =====
-- Sequencing of `Option`, in which `none` is a raised exception.
use mathlib.Core.Bool.{Bool, true, false}
use mathlib.Core.Path.{◌≡◌, subst}
use nodus.Prelude.Tests.{if◌then◌else◌}
use mathlib.Core.Option.{Option, none, some}

infixl 5 ◌>>=◌
abbrev pub ◌>>=◌ {ℓ κ} : {A : Type ℓ} {B : Type κ} → Option A → (A → Option B) → Option B
none >>= f = none
some a >>= f = f a

-- `P` holds of what `o` returns, if it returns.
pub data Yields {ℓ} {A : Type ℓ} (P : A → Type 0) : Option A → Type ℓ where
  raises : Yields P none
  returns : {a : A} → P a → Yields P (some a)

module _ {ℓ} {A : Type ℓ} {P : A → Type 0} where
  pub Yields-if :
      (b : Bool) (m n : Option A) → Yields P m → Yields P n → Yields P (if b then m else n)
  Yields-if true m n hm hn = hm
  Yields-if false m n hm hn = hn

  pub Yields-bind {κ} :
      {B : Type κ} {Q : B → Type 0} (m : Option B) (f : B → Option A)
      → Yields Q m
      → ((b : B) → Q b → Yields P (f b))
      → Yields P (m >>= f)
  Yields-bind none f h k = raises
  Yields-bind (some b) f (returns h) k = k b h

  pub Yields-bind_any {κ} :
      {B : Type κ} (m : Option B) (f : B → Option A)
      → ((b : B) → Yields P (f b))
      → Yields P (m >>= f)
  Yields-bind_any none f k = raises
  Yields-bind_any (some b) f k = k b

  pub Yields-some : {a : A} → Yields P (some a) → P a
  Yields-some (returns h) = h

  pub Yields-eq_some : {o : Option A} (a : A) → Yields P o → o ≡ some a → P a
  Yields-eq_some a y e = Yields-some (subst (Yields P) e y)

pub ruleset yields_rules = (raises, returns, Yields-if, Yields-bind_any)
