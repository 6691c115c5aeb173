-- ===== src/Retry/Delays.antt =====
-- The delays between the attempts: the cap of the strategy, and no negative one.
use nodus.Prelude.{ℕ, ◌-◌, Bool, true, false, Option, none, some, ◌≡◌, refl, if◌then◌else◌}
use text.Mathlib.Text.{◌==◌}
use nodus.Retry.{
  Fallible, ok, fails, too_large, unsupported_kind, ◌>>=◌, BackoffStrategy, Floats, raw_delay,
  capped, jittered, compute_backoff_delay,
}

-- What the code relies on of the order of floats, none of them a NaN: `max` and `min` are bounds
-- and doubling keeps the sign.
pub record FloatLaws {F : Type 0} (fl : Floats F) (le : F → F → Type 0) : Type 0 where
  pub le_max : (x y : F) → le x (fl.max x y)
  pub min_le : (x y : F) → le (fl.min x y) y
  pub le_min : (z x y : F) → le z x → le z y → le z (fl.min x y)
  pub le_scale : (x y : F) (n : ℕ) → le fl.nought x → fl.scale x n ≡ some y → le fl.nought y

-- `P` holds of the delay, if there is one.
abbrev pub Holds : {F : Type 0} → (F → Type 0) → Fallible F → Type 0
Holds P (ok d) = P d
Holds P (fails e) = Unit

module _ {F : Type 0} (P : F → Type 0) where
  Holds-if : (b : Bool) (x y : Fallible F) → Holds P x → Holds P y → Holds P (if b then x else y)
  Holds-if true x y hx hy = hx
  Holds-if false x y hx hy = hy

  Holds-bind :
      (f : Fallible F) (Q : F → Type 0) (g : F → F)
      → Holds Q f
      → ((d : F) → Q d → P (g d))
      → Holds P (f >>= (λ d. ok (g d)))
  Holds-bind (ok d) Q g h k = k d h
  Holds-bind (fails e) Q g h k = tt

  pick : (b : Bool) (x y : F) → P x → P y → P (if b then x else y)
  pick true x y hx hy = hx
  pick false x y hx hy = hy

module _ {F : Type 0} (fl : Floats F) (le : F → F → Type 0) (laws : FloatLaws fl le) where
  abbrev FromNought : F → Type 0
  FromNought d = le fl.nought d

  raw_delay-Holds : (s : BackoffStrategy F) (n : ℕ) → Holds FromNought (raw_delay fl s n)
  unfolding raw_delay
  raw_delay-Holds s n =
      Holds-if FromNought (s.kind == "fixed") (ok base) _
        (laws.le_max fl.nought s.base_delay_seconds)
        (Holds-if FromNought _ _ (fails unsupported_kind) (by_scale (fl.scale base (n - 1)) refl)
          tt)
    where
      base : F
      base = fl.max fl.nought s.base_delay_seconds

      by_scale :
          (o : Option F)
          → fl.scale base (n - 1) ≡ o
          → Holds FromNought (elim o [ some d ↦ ok d | none ↦ fails too_large ])
      by_scale none e = tt
      by_scale (some d) e =
          laws.le_scale base d (n - 1) (laws.le_max fl.nought s.base_delay_seconds) e

  capped-FromNought : (cap : Option F) (d : F) → FromNought d → FromNought (capped fl cap d)
  unfolding capped
  capped-FromNought none d h = h
  capped-FromNought (some most) d h = laws.le_min fl.nought d _ h (laws.le_max fl.nought most)

  jittered-FromNought :
      (s : BackoffStrategy F) (n : ℕ) (d : F) → FromNought d → FromNought (jittered fl s n d)
  unfolding jittered
  jittered-FromNought s n d h =
      pick FromNought (s.kind == "jittered_exponential") _ d (laws.le_max fl.nought _) h

  -- The delay before the next attempt, when there is one, is never negative, whatever the strategy,
  -- its numbers and the random draw, over floats with the laws of `FloatLaws`.
  pub delay_nonneg :
      (s : BackoffStrategy F) (n : ℕ) → Holds (λ d. le fl.nought d) (compute_backoff_delay fl s n)
  unfolding compute_backoff_delay
  delay_nonneg s n =
      Holds-bind FromNought (raw_delay fl s n) FromNought _ (raw_delay-Holds s n)
        (λ d h. jittered-FromNought s n _ (capped-FromNought s.max_delay_seconds d h))

  capped-le :
      (s : BackoffStrategy F) (n : ℕ) (limit : Option F) (most d : F)
      → (s.kind == "jittered_exponential") ≡ false
      → limit ≡ some most
      → le (jittered fl s n (capped fl limit d)) (fl.max fl.nought most)
  unfolding jittered capped
  capped-le s n limit most d h e = rw (h, e) (laws.min_le d (fl.max fl.nought most))

  -- Without jitter, the delay never exceeds the strategy's maximum (a negative one counts as 0),
  -- over floats with the laws of `FloatLaws`.
  pub delay_le_max :
      (s : BackoffStrategy F) (n : ℕ) (most : F)
      → (s.kind == "jittered_exponential") ≡ false
      → s.max_delay_seconds ≡ some most
      → Holds (λ d. le d (fl.max fl.nought most)) (compute_backoff_delay fl s n)
  unfolding compute_backoff_delay
  delay_le_max s n most h e =
      Holds-bind (λ d. le d (fl.max fl.nought most)) (raw_delay fl s n) FromNought _
        (raw_delay-Holds s n) (λ d x. capped-le s n s.max_delay_seconds most d h e)
