-- ===== src/TaskGraph/Explained.antt =====
-- What puts a task into the sets of the closure: a dependency that it does not accept.
use mathlib.Core.Path.{subst}
use nodus.Prelude.{
  ℕ, ◌≡◌, ◌⊎◌, inl, inr, refl, Bool, true, false, not, Option, none, some, List, [], ◌∷◌, ◌==◌,
  arith, All, if◌then◌else◌, ◌||◌, ◌&&◌, ==_iff,
}
use nodus.Tasks.{contains, add}
use nodus.Tasks.Laws.{contains-add}
use nodus.TaskGraph.{
  Run, TaskNode, Sets, Reason, blocks, skips, omits, is_failed, dep_satisfied, deps_satisfied,
  failed_ids, classified, dep_reason, deps_reason, put, by_reason, visit, first_sets, final_sets,
}
use nodus.TaskGraph.Closure.{close-finds}

-- No task has both a result and another outcome, or has failed and was skipped.
abbrev pub clash : Run → ℕ → Bool
clash r i =
    (contains r.results i && (is_failed (r.status i) || contains r.skipped_ids i))
    || (is_failed (r.status i) && contains r.skipped_ids i)

-- The task has no outcome of its own.
abbrev pub unsettled : Run → ℕ → Bool
unsettled r i = not (contains r.results i || is_failed (r.status i) || contains r.skipped_ids i)

-- `node` leads from the ids to the tasks.
module _ (r : Run) (node : ℕ → TaskNode) where
  -- The task has no outcome and a dependency that it does not accept.
  unfoldable pub Late : ℕ → Type 0
  Late i = (unsettled r i ≡ true) × (deps_satisfied r (node i) (node i).dependencies ≡ false)

  pub record Explained (s : Sets) : Type 0 where
    pub at_blocked : (i : ℕ) → contains s.blocked i ≡ true → Late i
    pub at_omitted : (i : ℕ) → contains s.omitted i ≡ true → Late i
    pub at_skipped :
        (i : ℕ) → contains s.skipped i ≡ true → (contains r.skipped_ids i ≡ true) ⊎ Late i
    pub guarded : (i : ℕ) → contains r.skipped_ids i ≡ true → contains s.skipped i ≡ true

  in_added :
      (i j : ℕ) (xs : List ℕ)
      → Late i
      → (contains xs j ≡ true → Late j)
      → contains (add i xs) j ≡ true
      → Late j
  in_added i j xs late rest h = by_test (i == j) refl
    where
      by_test : (b : Bool) → (i == j) ≡ b → Late j
      by_test true e = subst Late ((==_iff i j).0 e) late
      by_test false e = rest (ground (arith, contains-add i j xs))

  in_skipped :
      (i j : ℕ) (xs : List ℕ)
      → Late i
      → (contains xs j ≡ true → (contains r.skipped_ids j ≡ true) ⊎ Late j)
      → contains (add i xs) j ≡ true
      → (contains r.skipped_ids j ≡ true) ⊎ Late j
  in_skipped i j xs late rest h = by_test (i == j) refl
    where
      by_test : (b : Bool) → (i == j) ≡ b → (contains r.skipped_ids j ≡ true) ⊎ Late j
      by_test true e = inr (subst Late ((==_iff i j).0 e) late)
      by_test false e = rest (ground (arith, contains-add i j xs))

All-both :
    {A : Type 0} (P Q : A → Type 0) (xs : List A) → All P xs → All Q xs → All (λ x. P x × Q x) xs
All-both P Q [] h k = tt
All-both P Q (x ∷ xs) h k = ((h.0, k.0), All-both P Q xs h.1 k.1)

pub failed_ids-failed :
    (r : Run) (ts : List TaskNode) (i : ℕ)
    → contains (failed_ids r ts) i ≡ true
    → is_failed (r.status i) ≡ true
unfolding failed_ids contains
failed_ids-failed r [] i h = ground arith
failed_ids-failed r (t ∷ ts) i h =
    ground (arith, failed_ids-failed r ts i, contains-add t.task_id i (failed_ids r ts))

-- A failed task is among `failures`.
abbrev Listed : Run → List ℕ → TaskNode → Type 0
Listed r failures t = is_failed (r.status t.task_id) ≡ true → contains failures t.task_id ≡ true

Listed-more :
    (r : Run) (u : TaskNode) (all ts : List TaskNode)
    → All (Listed r (failed_ids r all)) ts
    → All (Listed r (failed_ids r (u ∷ all))) ts
unfolding failed_ids
Listed-more r u all [] h = tt
Listed-more r u all (t ∷ ts) h = (
  λ k. ground (arith, h.0 k, contains-add u.task_id t.task_id (failed_ids r all)),
  Listed-more r u all ts h.1,
)

failed_ids-Listed : (r : Run) (ts : List TaskNode) → All (Listed r (failed_ids r ts)) ts
unfolding failed_ids
failed_ids-Listed r [] = tt
failed_ids-Listed r (t ∷ ts) = (
  λ k. ground (arith, contains-add t.task_id t.task_id (failed_ids r ts)),
  Listed-more r t ts ts (failed_ids-Listed r ts),
)

module _ (r : Run) (node : ℕ → TaskNode) (failures : List ℕ)
    (consistent : (i : ℕ) → clash r i ≡ false)
    (sound : (i : ℕ) → contains failures i ≡ true → is_failed (r.status i) ≡ true) where
  dep_unsatisfied :
      (s : Sets) (t : TaskNode) (dep : ℕ) (x : Reason)
      → Explained r node s
      → dep_reason r failures s t dep ≡ some x
      → dep_satisfied r t dep ≡ false
  unfolding dep_reason dep_satisfied Late
  dep_unsatisfied s t dep x ex h =
      ground
        (arith, consistent dep, sound dep, ex.at_blocked dep, ex.at_omitted dep, ex.at_skipped dep)

  deps_unsatisfied :
      (s : Sets) (t : TaskNode) (deps : List ℕ) (x : Reason)
      → Explained r node s
      → deps_reason r failures s t deps ≡ some x
      → deps_satisfied r t deps ≡ false
  unfolding deps_reason deps_satisfied
  deps_unsatisfied s t [] x ex h = ground arith
  deps_unsatisfied s t (dep ∷ deps) x ex h =
      by_first (dep_reason r failures s t dep) refl (deps_unsatisfied s t deps x ex)
    where
      by_first :
          (o : Option Reason)
          → dep_reason r failures s t dep ≡ o
          → (deps_reason r failures s t deps ≡ some x → deps_satisfied r t deps ≡ false)
          → (dep_satisfied r t dep && deps_satisfied r t deps) ≡ false
      by_first (some y) e rest = rw (dep_unsatisfied s t dep y ex e) refl
      by_first none e rest = ground (arith, rest)

  -- A task that is put into a set is late.
  new_Late :
      (s : Sets) (t : TaskNode) (x : Reason)
      → Explained r node s
      → Listed r failures t
      → node t.task_id ≡ t
      → classified r failures s t.task_id ≡ false
      → deps_reason r failures s t t.dependencies ≡ some x
      → Late r node t.task_id
  unfolding classified Late
  new_Late s t x ex listed named new h = (
    ground (arith, listed, ex.guarded t.task_id),
    rw named (deps_unsatisfied s t t.dependencies x ex h),
  )

  put-Explained :
      (s : Sets) (i : ℕ) (x : Reason)
      → Explained r node s
      → Late r node i
      → Explained r node (put r failures s i x)
  put-Explained s i blocks ex late = record {
    at_blocked = λ j h. in_added r node i j s.blocked late (ex.at_blocked j) h;
    at_omitted = ex.at_omitted;
    at_skipped = ex.at_skipped;
    guarded = ex.guarded;
  }
  put-Explained s i omits ex late = record {
    at_blocked = ex.at_blocked;
    at_omitted = λ j h. in_added r node i j s.omitted late (ex.at_omitted j) h;
    at_skipped = ex.at_skipped;
    guarded = ex.guarded;
  }
  put-Explained s i skips ex late = record {
    at_blocked = ex.at_blocked;
    at_omitted = ex.at_omitted;
    at_skipped = λ j h. in_skipped r node i j s.skipped late (ex.at_skipped j) h;
    guarded = λ j h. ground (arith, contains-add i j s.skipped, ex.guarded j h);
  }

  visit-Explained :
      (s : Sets) (t : TaskNode) (c : Bool)
      → (node t.task_id ≡ t) × Listed r failures t
      → Explained r node s
      → Explained r node (visit r failures s t c).0
  unfolding visit
  visit-Explained s t c (named, listed) ex =
      by_test (classified r failures s t.task_id) refl (deps_reason r failures s t t.dependencies)
        refl
    where
      by_test :
          (b : Bool)
          → classified r failures s t.task_id ≡ b
          → (o : Option Reason) → deps_reason r failures s t t.dependencies ≡ o
          → Explained r node (if b then (s, c) else by_reason r failures s t.task_id o c).0
      by_test true e o k = ex
      by_test false e none k = ex
      by_test false e (some x) k =
          put-Explained s t.task_id x ex (new_Late s t x ex listed named e k)

not_in : (i : ℕ) → ¬ (contains [] i ≡ true)
unfolding contains
not_in i h = ground arith

module _ (r : Run) (node : ℕ → TaskNode) (ts : List TaskNode)
    (consistent : (i : ℕ) → clash r i ≡ false) (named : All (λ t. node t.task_id ≡ t) ts) where
  pub final-Explained : (s : Sets) → final_sets r ts ≡ some s → Explained r node s
  unfolding final_sets
  final-Explained s e =
      let failures = failed_ids r ts in
      close-finds r failures (Explained r node) (λ t. (node t.task_id ≡ t) × Listed r failures t)
        (visit-Explained r node failures consistent (failed_ids-failed r ts)) _ ts (first_sets r) s
        (All-both (λ t. node t.task_id ≡ t) (Listed r failures) ts named (failed_ids-Listed r ts))
        (record {
          at_blocked = λ i h. absurd (not_in i h);
          at_omitted = λ i h. absurd (not_in i h);
          at_skipped = λ i h. inl h;
          guarded = λ i h. h;
        })
        e
