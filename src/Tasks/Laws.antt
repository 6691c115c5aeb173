-- ===== src/Tasks/Laws.antt =====
-- The sets of the scheduler, and what `schedule` leaves alone.
use nodus.Prelude.{
  ℕ, ◌≡◌, ◌≢◌, refl, true, false, List, [], ◌∷◌, ◌++◌, ◌==◌, arith, ◌||◌, if◌then◌else◌,
}
use nodus.Tasks.{World, finished, update, contains, discard, add, schedule}

pub contains-discard :
    (a b : ℕ) (xs : List ℕ) → contains (discard a xs) b ≡ (if a == b then false else contains xs b)
unfolding contains discard
contains-discard a b [] = ground arith
contains-discard a b (x ∷ xs) = ground (arith, contains-discard a b xs)

pub contains-add :
    (a b : ℕ) (xs : List ℕ) → contains (add a xs) b ≡ (if a == b then true else contains xs b)
unfolding add contains
contains-add a b xs = ground arith

pub contains-append :
    (xs ys : List ℕ) (a : ℕ) → contains (xs ++ ys) a ≡ (contains xs a || contains ys a)
unfolding contains
contains-append [] ys a = refl
contains-append (x ∷ xs) ys a = ground (arith, contains-append xs ys a)

module _ {V E : Type 0} (w : World V E) (c : ℕ) where
  pub coroutines-schedule : (schedule w c).coroutines ≡ w.coroutines
  unfolding schedule
  coroutines-schedule = ground arith

  pub channels-schedule : (schedule w c).channels ≡ w.channels
  unfolding schedule
  channels-schedule = ground arith

  pub recv_channels-schedule : (schedule w c).recv_channels ≡ w.recv_channels
  unfolding schedule
  recv_channels-schedule = ground arith

  pub send_channels-schedule : (schedule w c).send_channels ≡ w.send_channels
  unfolding schedule
  send_channels-schedule = ground arith

  pub ready_queue-schedule :
      (w.coroutines c).state ≢ finished → (schedule w c).ready_queue ≡ w.ready_queue ++ c ∷ []
  unfolding schedule
  ready_queue-schedule h = ground arith

pub update_self {ℓ} : {A : Type ℓ} (f : ℕ → A) (i : ℕ) (a : A) → update f i a i ≡ a
update_self f i a = ground arith

pub update_ne {ℓ} : {A : Type ℓ} (f : ℕ → A) (i j : ℕ) (a : A) → i ≢ j → update f i a j ≡ f j
update_ne f i j a h = ground arith
