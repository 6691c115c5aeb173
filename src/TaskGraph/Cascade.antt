-- ===== src/TaskGraph/Cascade.antt =====
-- What the closure of `task_statuses` makes of a step below one that its own guard excluded.
use nodus.Prelude.{
  ℕ, ◌≡◌, ◌≢◌, ◌⊎◌, inl, inr, refl, sym, ap, ◌∙◌, Bool, true, false, Option, none, some, List, ◌∷◌,
  arith, if◌then◌else◌, ◌==◌, ==_iff, Bool-cases,
}
use nodus.Tasks.{contains, add}
use nodus.Tasks.Laws.{contains-add}
use nodus.TaskGraph.{
  Run, TaskNode, Sets, Reason, blocks, skips, omits, classified, dep_reason, deps_reason, put,
  by_reason, visit,
}
use nodus.TaskGraph.Explained.{unsettled}
use nodus.TaskGraph.Quiet.{Stuck}

-- `a` was excluded by its guard, and the task `u` needs it first and does not accept that.
module _ (r : Run) (failures : List ℕ) (a : ℕ) (u : TaskNode) (deps : List ℕ)
    (excluded : contains r.skipped_ids a ≡ true) (no_result : contains r.results a ≡ false)
    (listed : contains failures a ≡ false) (needs : u.dependencies ≡ a ∷ deps)
    (refuses : u.on_states.skipped ≡ false) where
  -- Neither is blocked or omitted, and `a` is skipped.
  pub record Skips (s : Sets) : Type 0 where
    pub skipped_a : contains s.skipped a ≡ true
    pub blocked_a : contains s.blocked a ≡ false
    pub omitted_a : contains s.omitted a ≡ false
    pub blocked_u : contains s.blocked u.task_id ≡ false
    pub omitted_u : contains s.omitted u.task_id ≡ false

  reason_skips : (s : Sets) → Skips s → deps_reason r failures s u u.dependencies ≡ some skips
  unfolding deps_reason dep_reason
  reason_skips s k =
      ap (deps_reason r failures s u) needs ∙ rw (k.blocked_a, listed, k.skipped_a, refuses) refl

  classified_a : (s : Sets) → Skips s → classified r failures s a ≡ true
  unfolding classified
  classified_a s k = ground (arith, k.skipped_a)

  add_other :
      (i j : ℕ) (xs : List ℕ) → i ≢ j → contains xs j ≡ false → contains (add i xs) j ≡ false
  add_other i j xs ne h = ground (arith, contains-add i j xs)

  put-Skips :
      (s : Sets) (i : ℕ) (x : Reason)
      → Skips s
      → i ≢ a
      → (x ≡ skips) ⊎ (i ≢ u.task_id)
      → Skips (put r failures s i x)
  put-Skips s i skips k ne o = record {
    skipped_a = ground (arith, k.skipped_a, contains-add i a s.skipped);
    blocked_a = k.blocked_a;
    omitted_a = k.omitted_a;
    blocked_u = k.blocked_u;
    omitted_u = k.omitted_u;
  }
  put-Skips s i blocks k ne (inl e) = absurd (ground arith)
  put-Skips s i blocks k ne (inr other) = record {
    skipped_a = k.skipped_a;
    blocked_a = add_other i a s.blocked ne k.blocked_a;
    omitted_a = k.omitted_a;
    blocked_u = add_other i u.task_id s.blocked other k.blocked_u;
    omitted_u = k.omitted_u;
  }
  put-Skips s i omits k ne (inl e) = absurd (ground arith)
  put-Skips s i omits k ne (inr other) = record {
    skipped_a = k.skipped_a;
    blocked_a = k.blocked_a;
    omitted_a = add_other i a s.omitted ne k.omitted_a;
    blocked_u = k.blocked_u;
    omitted_u = add_other i u.task_id s.omitted other k.omitted_u;
  }

  module _ (node : ℕ → TaskNode) (named : node u.task_id ≡ u) where
    -- a task with the id of `u` is `u`, which is skipped
    only_skips :
        (s : Sets) (t : TaskNode) (x : Reason)
        → Skips s
        → node t.task_id ≡ t
        → deps_reason r failures s t t.dependencies ≡ some x
        → (x ≡ skips) ⊎ (t.task_id ≢ u.task_id)
    only_skips s t x k e h = elim (Bool-cases (t.task_id == u.task_id)) [
      | inl same ↦
          let is_u : t ≡ u = sym e ∙ ap node ((==_iff _ _).0 same) ∙ named in
          inl (
            some_injective
              (sym h ∙ ap (λ y. deps_reason r failures s y y.dependencies) is_u ∙ reason_skips s k))
      | inr other ↦ inr (λ q. ground (arith, other))
    ]
      where
        some_injective : some x ≡ some skips → x ≡ skips
        some_injective q = ap (λ o. elim o [ some y ↦ y | none ↦ x ]) q

    pub visit-Skips :
        (s : Sets) (t : TaskNode) (c : Bool)
        → node t.task_id ≡ t
        → Skips s
        → Skips (visit r failures s t c).0
    unfolding visit
    visit-Skips s t c e k =
        by_test (classified r failures s t.task_id) refl (deps_reason r failures s t t.dependencies)
          refl
      where
        true_ne_false : true ≢ false
        true_ne_false z = ground arith

        by_test :
            (b : Bool)
            → classified r failures s t.task_id ≡ b
            → (o : Option Reason) → deps_reason r failures s t t.dependencies ≡ o
            → Skips (if b then (s, c) else by_reason r failures s t.task_id o c).0
        by_test true q o h = k
        by_test false q none h = k
        by_test false q (some x) h =
            put-Skips s t.task_id x k
              (λ i.
                true_ne_false (sym (classified_a s k) ∙ ap (classified r failures s) (sym i) ∙ q))
              (only_skips s t x k e h)

  -- At the end of the closure `u` is among the skipped, if it has no outcome of its own.
  pub Stuck-skipped :
      (s : Sets)
      → Skips s
      → unsettled r u.task_id ≡ true
      → contains failures u.task_id ≡ false
      → Stuck r failures s u
      → contains s.skipped u.task_id ≡ true
  unfolding classified
  Stuck-skipped s k free unlisted (inl h) = ground (arith, k.blocked_u, k.omitted_u)
  Stuck-skipped s k free unlisted (inr h) = absurd (ground (arith, reason_skips s k))
