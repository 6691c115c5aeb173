-- ===== src/Semver/Order.antt =====
-- The order of versions.
use nodus.Prelude.{◌≡◌, ◌↔◌, ◌⊎◌, true, false, arith}
use nodus.Semver.{Version, lt, eq, le}

-- Exactly one of `a < b`, `a == b` and `b < a` holds, and `==` holds of equal versions only.
pub lt_trichotomy :
    (a b : Version)
    → ((lt a b ≡ true) × (eq a b ≡ false) × (lt b a ≡ false))
      ⊎ ((lt a b ≡ false) × (a ≡ b) × (lt b a ≡ false))
      ⊎ ((lt a b ≡ false) × (eq a b ≡ false) × (lt b a ≡ true))
unfolding lt eq
lt_trichotomy a b = ground arith

pub eq_iff_eq : (a b : Version) → (eq a b ≡ true) ↔ (a ≡ b)
unfolding eq
eq_iff_eq a b = ground arith

-- `<` is transitive, so that sorting by it is meaningful.
pub lt_trans : (a b c : Version) → lt a b ≡ true → lt b c ≡ true → lt a c ≡ true
unfolding lt
lt_trans a b c h k = ground arith

pub le_iff_not_lt : (a b : Version) → (le a b ≡ true) ↔ (lt b a ≡ false)
unfolding le
le_iff_not_lt a b = ground arith
