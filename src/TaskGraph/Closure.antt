-- ===== src/TaskGraph/Closure.antt =====
-- That the closure of `task_statuses` ends, and a rule for what it keeps.
use mathlib.Core.List.{append_assoc}
use mathlib.Core.Path.{subst}
use nodus.Prelude.{
  ℕ, zero, suc, ◌≤◌, ◌<◌, ◌≡◌, ◌⊎◌, inl, inr, refl, ◌∙◌, Bool, true, false, Option, none, some,
  List, [], ◌∷◌, ◌++◌, arith, All, if◌then◌else◌, length,
}
use nodus.Tasks.Laws.{contains-add}
use nodus.TaskGraph.{
  Run, TaskNode, Sets, Reason, blocks, skips, omits, classified, deps_reason, put, by_reason, visit,
  pass, close_sets, failed_ids, first_sets, final_sets,
}

module _ (r : Run) (failures : List ℕ) where
  Grows : Sets → Sets → Type 0
  Grows s s₁ = (i : ℕ) → classified r failures s i ≡ true → classified r failures s₁ i ≡ true

  put-Grows : (s : Sets) (i : ℕ) (x : Reason) → Grows s (put r failures s i x)
  unfolding classified Grows
  put-Grows s i blocks j h = ground (arith, contains-add i j s.blocked)
  put-Grows s i skips j h = ground (arith, contains-add i j s.skipped)
  put-Grows s i omits j h = ground (arith, contains-add i j s.omitted)

  classified-put :
      (s : Sets) (i : ℕ) (x : Reason) → classified r failures (put r failures s i x) i ≡ true
  unfolding classified
  classified-put s i blocks = ground (arith, contains-add i i s.blocked)
  classified-put s i skips = ground (arith, contains-add i i s.skipped)
  classified-put s i omits = ground (arith, contains-add i i s.omitted)

  -- how many tasks are not classified
  abbrev unclassified : Sets → List TaskNode → ℕ
  unclassified s [] = 0
  unclassified s (t ∷ ts) =
      if classified r failures s t.task_id then unclassified s ts else suc (unclassified s ts)

  unclassified-le_length : (s : Sets) (ts : List TaskNode) → unclassified s ts ≤ length ts
  unclassified-le_length s [] = omega arith
  unclassified-le_length s (t ∷ ts) = ground (arith, unclassified-le_length s ts)

  unclassified-Grows :
      (s s₁ : Sets) (ts : List TaskNode) → Grows s s₁ → unclassified s₁ ts ≤ unclassified s ts
  unfolding Grows
  unclassified-Grows s s₁ [] g = omega arith
  unclassified-Grows s s₁ (t ∷ ts) g = ground (arith, unclassified-Grows s s₁ ts g, g t.task_id)

  unclassified-drops :
      (s s₁ : Sets) (front : List TaskNode) (t : TaskNode) (back : List TaskNode)
      → Grows s s₁
      → classified r failures s t.task_id ≡ false
      → classified r failures s₁ t.task_id ≡ true
      → unclassified s₁ (front ++ t ∷ back) < unclassified s (front ++ t ∷ back)
  unfolding Grows
  unclassified-drops s s₁ [] t back g h k = ground (arith, unclassified-Grows s s₁ back g)
  unclassified-drops s s₁ (u ∷ front) t back g h k =
      ground (arith, unclassified-drops s s₁ front t back g h k, g u.task_id)

  -- The sets grow, and if the flag is raised there is less left to classify.
  abbrev Advances : List TaskNode → Sets × Bool → Sets × Bool → Type 0
  Advances ts p q = Grows p.0 q.0 × ((q.1 ≡ p.1) ⊎ (unclassified q.0 ts < unclassified p.0 ts))

  Advances-trans :
      (ts : List TaskNode) (p q u : Sets × Bool)
      → Advances ts p q
      → Advances ts q u
      → Advances ts p u
  unfolding Grows
  Advances-trans ts p q u (g, a) (h, b) = (
    λ i k. h i (g i k),
    elim b [
      | inl same ↦ elim a [
        | inl same₁ ↦ inl (same ∙ same₁)
        | inr lt ↦ inr (omega (arith, unclassified-Grows q.0 u.0 ts h))
      ]
      | inr lt ↦ inr (omega (arith, unclassified-Grows p.0 q.0 ts g))
    ],
  )

  visit-Advances :
      (front : List TaskNode) (t : TaskNode) (back : List TaskNode) (s : Sets) (c : Bool)
      → Advances (front ++ t ∷ back) (s, c) (visit r failures s t c)
  unfolding visit Grows
  visit-Advances front t back s c =
      by_test (classified r failures s t.task_id) refl (deps_reason r failures s t t.dependencies)
    where
      by_test :
          (b : Bool)
          → classified r failures s t.task_id ≡ b
          → (o : Option Reason)
          → Advances
              (front ++ t ∷ back)
              (s, c)
              (if b then (s, c) else by_reason r failures s t.task_id o c)
      by_test true e o = (λ i h. h, inl refl)
      by_test false e none = (λ i h. h, inl refl)
      by_test false e (some x) =
          let g = put-Grows s t.task_id x in
          (
            g,
            inr (
                unclassified-drops s (put r failures s t.task_id x) front t back g e
                  (classified-put s t.task_id x)),
          )

  pass-Advances :
      (front ts : List TaskNode) (p : Sets × Bool) → Advances (front ++ ts) p (pass r failures ts p)
  unfolding pass Grows
  pass-Advances front [] (s, c) = (λ i h. h, inl refl)
  pass-Advances front (t ∷ ts) (s, c) =
      Advances-trans (front ++ t ∷ ts) (s, c) (visit r failures s t c) _
        (visit-Advances front t ts s c)
        (subst
          (λ all.
            Advances all (visit r failures s t c) (pass r failures ts (visit r failures s t c)))
          (append_assoc front (t ∷ []) ts)
          (pass-Advances (front ++ t ∷ []) ts (visit r failures s t c)))

  -- the loop, by what its first pass gives
  abbrev pub pass_closed : ℕ → List TaskNode → Sets × Bool → Option Sets
  pass_closed n ts (s, changed) = if changed then close_sets r failures n ts s else some s

  pub closes :
      (n : ℕ) (ts : List TaskNode) (s : Sets)
      → unclassified s ts < n
      → (s₁ : Sets) × (close_sets r failures n ts s ≡ some s₁)
  unfolding close_sets
  closes zero ts s h = absurd (omega arith)
  closes (suc n) ts s h =
      by_pass (pass r failures ts (s, false)) (pass-Advances [] ts (s, false)).1 (closes n ts)
    where
      by_pass :
          (q : Sets × Bool)
          → (q.1 ≡ false) ⊎ (unclassified q.0 ts < unclassified s ts)
          → ((s₁ : Sets)
              → unclassified s₁ ts < n
              → (s₂ : Sets) × (close_sets r failures n ts s₁ ≡ some s₂))
          → (s₁ : Sets) × (pass_closed n ts q ≡ some s₁)
      by_pass (s₁, false) a rest = (s₁, refl)
      by_pass (s₁, true) (inl e) rest = absurd (ground arith)
      by_pass (s₁, true) (inr lt) rest = rest s₁ (omega arith)

-- What every visit keeps, the closure keeps.
module _ (r : Run) (failures : List ℕ) (P : Sets → Type 0) (Q : TaskNode → Type 0)
    (keeps : (s : Sets) (t : TaskNode) (c : Bool) → Q t → P s → P (visit r failures s t c).0) where
  pass-keeps :
      (ts : List TaskNode) (p : Sets × Bool) → All Q ts → P p.0 → P (pass r failures ts p).0
  unfolding pass
  pass-keeps [] (s, c) q h = h
  pass-keeps (t ∷ ts) (s, c) q h = pass-keeps ts (visit r failures s t c) q.1 (keeps s t c q.0 h)

  abbrev Finds : Option Sets → Type 0
  Finds none = Unit
  Finds (some s) = P s

  close-keeps :
      (n : ℕ) (ts : List TaskNode) (s : Sets)
      → All Q ts
      → P s
      → Finds (close_sets r failures n ts s)
  unfolding close_sets
  close-keeps zero ts s q h = tt
  close-keeps (suc n) ts s q h =
      by_pass (pass r failures ts (s, false)) (pass-keeps ts (s, false) q h)
        (λ s₁. close-keeps n ts s₁ q)
    where
      by_pass :
          (u : Sets × Bool)
          → P u.0
          → ((s₁ : Sets) → P s₁ → Finds (close_sets r failures n ts s₁))
          → Finds (pass_closed r failures n ts u)
      by_pass (s₁, false) k rest = k
      by_pass (s₁, true) k rest = rest s₁ k

  pub close-finds :
      (n : ℕ) (ts : List TaskNode) (s s₁ : Sets)
      → All Q ts
      → P s
      → close_sets r failures n ts s ≡ some s₁
      → P s₁
  close-finds n ts s s₁ q h e = subst Finds e (close-keeps n ts s q h)

-- The closure of `task_statuses` ends: on every graph, one pass more than there are tasks suffices.
pub final_sets-ends : (r : Run) (ts : List TaskNode) → (s : Sets) × (final_sets r ts ≡ some s)
unfolding final_sets
final_sets-ends r ts =
    closes r (failed_ids r ts) (suc (length ts)) ts (first_sets r)
      (omega (arith, unclassified-le_length r (failed_ids r ts) (first_sets r) ts))
