-- ===== src/TaskGraph/Quiet.antt =====
-- Where the closure of `task_statuses` ends: no visit changes anything any more.
use mathlib.Core.Path.{subst}
use nodus.Prelude.{
  ℕ, zero, suc, ◌≡◌, ◌⊎◌, inl, inr, refl, sym, Bool, true, false, Option, none, some, List, [], ◌∷◌,
  arith, All, if◌then◌else◌,
}
use nodus.TaskGraph.{
  Run, TaskNode, Sets, Reason, classified, deps_reason, put, by_reason, visit, pass, close_sets,
}
use nodus.TaskGraph.Closure.{pass_closed}

module _ (r : Run) (failures : List ℕ) where
  -- A visit changes nothing here.
  abbrev pub Stuck : Sets → TaskNode → Type 0
  Stuck s t =
      (classified r failures s t.task_id ≡ true)
      ⊎ (deps_reason r failures s t t.dependencies ≡ none)

  flag_stays : (ts : List TaskNode) (s : Sets) → (pass r failures ts (s, true)).1 ≡ true
  unfolding pass visit
  flag_stays [] s = refl
  flag_stays (t ∷ ts) s =
      by_test (classified r failures s t.task_id) (deps_reason r failures s t t.dependencies)
        (flag_stays ts)
    where
      by_test :
          (b : Bool) (o : Option Reason)
          → ((s₁ : Sets) → (pass r failures ts (s₁, true)).1 ≡ true)
          → (pass r failures ts
              (if b then (s, true) else by_reason r failures s t.task_id o true)).1
            ≡ true
      by_test true o rest = rest s
      by_test false none rest = rest s
      by_test false (some x) rest = rest (put r failures s t.task_id x)

  abbrev Quiet : Sets → List TaskNode → Sets × Bool → Type 0
  Quiet s ts (s₁, true) = Unit
  Quiet s ts (s₁, false) = (s₁ ≡ s) × All (Stuck s) ts

  Quiet-true : (s : Sets) (ts : List TaskNode) (q : Sets × Bool) → q.1 ≡ true → Quiet s ts q
  Quiet-true s ts (s₁, true) e = tt
  Quiet-true s ts (s₁, false) e = absurd (ground arith)

  Quiet-more :
      (s : Sets) (t : TaskNode) (ts : List TaskNode) (q : Sets × Bool)
      → Stuck s t
      → Quiet s ts q
      → Quiet s (t ∷ ts) q
  Quiet-more s t ts (s₁, true) k h = tt
  Quiet-more s t ts (s₁, false) k h = (h.0, (k, h.1))

  -- A pass that raises no flag changed nothing.
  pass-Quiet : (ts : List TaskNode) (s : Sets) → Quiet s ts (pass r failures ts (s, false))
  unfolding pass visit
  pass-Quiet [] s = (refl, tt)
  pass-Quiet (t ∷ ts) s =
      by_test (classified r failures s t.task_id) refl (deps_reason r failures s t t.dependencies)
        refl (pass-Quiet ts s)
    where
      by_test :
          (b : Bool)
          → classified r failures s t.task_id ≡ b
          → (o : Option Reason) → deps_reason r failures s t t.dependencies ≡ o
          → Quiet s ts (pass r failures ts (s, false))
          → Quiet s (t ∷ ts) (
              pass r failures ts
                (if b then (s, false) else by_reason r failures s t.task_id o false))
      by_test true e o k rest = Quiet-more s t ts _ (inl e) rest
      by_test false e none k rest = Quiet-more s t ts _ (inr k) rest
      by_test false e (some x) k rest =
          Quiet-true s (t ∷ ts) _ (flag_stays ts (put r failures s t.task_id x))

  abbrev pub AllStuck : List TaskNode → Option Sets → Type 0
  AllStuck ts none = Unit
  AllStuck ts (some s) = All (Stuck s) ts

  -- The closure ends where no visit changes anything.
  pub close-AllStuck :
      (n : ℕ) (ts : List TaskNode) (s : Sets) → AllStuck ts (close_sets r failures n ts s)
  unfolding close_sets
  close-AllStuck zero ts s = tt
  close-AllStuck (suc n) ts s =
      by_pass (pass r failures ts (s, false)) (pass-Quiet ts s) (close-AllStuck n ts)
    where
      by_pass :
          (q : Sets × Bool)
          → Quiet s ts q
          → ((s₁ : Sets) → AllStuck ts (close_sets r failures n ts s₁))
          → AllStuck ts (pass_closed r failures n ts q)
      by_pass (s₁, true) h rest = rest s₁
      by_pass (s₁, false) h rest = subst (λ x. All (Stuck x) ts) (sym h.0) h.1
