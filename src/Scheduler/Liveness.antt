-- ===== src/Scheduler/Liveness.antt =====
-- That a coroutine in the ready queue gets its turn.
use nodus.Prelude.{
  ℕ, zero, suc, ◌≡◌, ◌⊎◌, refl, Bool, true, false, none, some, List, [], ◌∷◌, ◌++◌, ◌==◌, arith,
  if◌then◌else◌, ◌||◌,
}
use nodus.Tasks.{World, Coroutine, finished, is_finished, is_suspended, set_coroutine}
use nodus.Scheduler.{unwind_cancelled_coroutine}
use nodus.Scheduler.Queue.{
  Grows, Grows-same, Grows-release, Grows-mark_completed, Grows-settle, Grows-sleep,
}
use nodus.Scheduler.Turn.{
  Host, Outcome, Turn, goes, leaves, raises, turn, serve, drive, time_out, fail, complete, suspend,
  after_resume, notify_complete, notify_error, unless_stopped, release_current, expire,
  record_failure, entering, requeue, overdue, yielded, channel_wait, sleep, failed, limit_exceeded,
}

-- `d` stands among the first `n + 1` entries.
abbrev pub soon : ℕ → ℕ → List ℕ → Bool
soon n d [] = false
soon zero d (x ∷ xs) = x == d
soon (suc n) d (x ∷ xs) = (x == d) || soon n d xs

-- `d` is finished or has at most `n` coroutines ahead of it.
pub record Due {V E : Type 0} (n d : ℕ) (w : World V E) : Type 0 where
  pub holds : (is_finished (w.coroutines d).state || soon n d w.ready_queue) ≡ true

-- Whatever the host does, a coroutine does not lose its place.
pub record Fair {V E : Type 0} (host : Host V E) : Type 0 where
  pub resume : (n d : ℕ) (w : World V E) (c : ℕ) → Due n d w → Due n d (host.resume w c).0
  pub run_finally :
      (n d : ℕ) (w : World V E) (c : ℕ) (e : E) → Due n d w → Due n d (host.run_finally w c e)
  pub on_complete :
      (n d : ℕ) (w : World V E) (c : ℕ) (s : Bool)
      → Due n d w
      → Due n d (notify_complete host.on_complete w c s).0
  pub on_error :
      (n d : ℕ) (w : World V E) (c : ℕ) (e : E) (s : Bool)
      → Due n d w
      → Due n d (notify_error host.on_error w c e s).0

-- The turn leaves the loop or raises.
abbrev pub Ends : {V E : Type 0} → Turn V E → Type 0
Ends (goes w stop) = ⊥
Ends _ = Unit

pub soon-append : (n d : ℕ) (xs ys : List ℕ) → soon n d xs ≡ true → soon n d (xs ++ ys) ≡ true
soon-append zero d (x ∷ xs) ys h = h
soon-append (suc n) d (x ∷ xs) ys h = ground (arith, soon-append n d xs ys)
soon-append n d [] ys h = ground arith

module _ {V E : Type 0} (n d : ℕ) where
  pub Grows-Due : (w w₁ : World V E) → Grows w w₁ → Due n d w → Due n d w₁
  Grows-Due w w₁ g h = record {
    holds = ground (arith, h.holds, g.queue, g.states d, soon-append n d w.ready_queue g.more);
  }

  -- what a turn leaves behind, if the loop goes on
  abbrev pub AfterDue : Turn V E → Type 0
  AfterDue (goes w stop) = Due n d w
  AfterDue _ = Unit

  unless_stopped-AfterDue : (p : World V E × Bool) → Due n d p.0 → AfterDue (unless_stopped p)
  unless_stopped-AfterDue (w, true) h = tt
  unless_stopped-AfterDue (w, false) h = h

  AfterDue-if :
      (b : Bool) (t u : Turn V E) → AfterDue t → AfterDue u → AfterDue (if b then t else u)
  AfterDue-if true t u h k = h
  AfterDue-if false t u h k = k

  Due-if : (b : Bool) (w w₁ : World V E) → Due n d w → Due n d w₁ → Due n d (if b then w else w₁)
  Due-if true w w₁ h k = h
  Due-if false w w₁ h k = k

  release_current-AfterDue : (t : Turn V E) → AfterDue t → AfterDue (release_current t)
  release_current-AfterDue (goes w stop) h = record { holds = h.holds }
  release_current-AfterDue (leaves w) h = tt
  release_current-AfterDue (raises w e) h = tt

  pub Due-kept :
      (w w₁ : World V E)
      → w₁.ready_queue ≡ w.ready_queue
      → ((y : ℕ) → (w₁.coroutines y).state ≡ (w.coroutines y).state)
      → Due n d w
      → Due n d w₁
  Due-kept w w₁ q s = Grows-Due w w₁ (Grows-same w w₁ q s)

  pub Due-set :
      (w : World V E) (c : ℕ) (x : Coroutine V E)
      → x.state ≡ (w.coroutines c).state
      → Due n d w
      → Due n d (set_coroutine w c x)
  Due-set w c x h = Due-kept w (set_coroutine w c x) refl λ y. ground arith

  pub Due-finish :
      (w : World V E) (c : ℕ) (x : Coroutine V E)
      → x.state ≡ finished
      → Due n d w
      → Due n d (set_coroutine w c x)
  Due-finish w c x h k = record { holds = ground (arith, k.holds) }

module _ {V E : Type 0} (host : Host V E) (fair : Fair host) (n d : ℕ) where
  unwind-Due :
      (w : World V E) (c : ℕ) (e : E)
      → Due n d w
      → Due n d (unwind_cancelled_coroutine host.run_finally w c e)
  unfolding unwind_cancelled_coroutine
  unwind-Due w c e h =
      Due-finish n d _ c _ refl (fair.run_finally n d _ c e (Due-set n d w c _ refl h))

  expire-Due : (w : World V E) (c : ℕ) → Due n d w → Due n d (expire host w c)
  unfolding expire
  expire-Due w c h =
      Grows-Due n d _ _ (Grows-settle _ c) (Due-if n d _ _ w (unwind-Due w c host.timeout h) h)

  time_out-AfterDue :
      (w : World V E) (c : ℕ) (s : Bool) → Due n d w → AfterDue n d (time_out host w c s)
  unfolding time_out
  time_out-AfterDue w c s h =
      unless_stopped-AfterDue n d _
        (fair.on_error n d (expire host w c) c host.timeout s (expire-Due w c h))

  record_failure-Due :
      (w : World V E) (c : ℕ) (e : E) → Due n d w → Due n d (record_failure host w c e)
  unfolding record_failure
  record_failure-Due w c e h = Grows-Due n d _ _ (Grows-settle _ c) (
      Grows-Due n d _ _ (Grows-release _ c) (record {
        holds = (Due-set n d w c (record (w.coroutines c) { failure = some e }) refl h).holds;
      }))

  fail-AfterDue :
      (w : World V E) (c : ℕ) (e : E) (s : Bool) → Due n d w → AfterDue n d (fail host w c e s)
  unfolding fail
  fail-AfterDue w c e s h = release_current-AfterDue n d _ (
      unless_stopped-AfterDue n d _
        (fair.on_error n d (record_failure host w c e) c e s (record_failure-Due w c e h)))

  complete-AfterDue :
      (w : World V E) (c : ℕ) (s : Bool) → Due n d w → AfterDue n d (complete host w c s)
  complete-AfterDue w c s h =
      AfterDue-if n d (is_finished (w.coroutines c).state) _ _
        (fair.on_complete n d _ c s (Grows-Due n d w _ (Grows-mark_completed w c) h)) h

  requeue-AfterDue :
      (w : World V E) (c : ℕ) (s : Bool) → Due n d w → AfterDue n d (requeue host w c s)
  requeue-AfterDue w c s h =
      AfterDue-if n d s (leaves _) _ tt
        (Grows-Due n d w _ (record { more = c ∷ []; queue = refl; states = λ y. refl }) h)

  suspend-AfterDue :
      (w : World V E) (c : ℕ) (s : Bool) (o : Outcome E)
      → Due n d w
      → AfterDue n d (suspend host w c s o)
  suspend-AfterDue w c s (sleep (some ms)) h = Grows-Due n d w _ (Grows-sleep w c ms) h
  suspend-AfterDue w c s (sleep none) h = h
  suspend-AfterDue w c s channel_wait h = h
  suspend-AfterDue w c s yielded h = requeue-AfterDue w c s h
  suspend-AfterDue w c s (failed e) h = requeue-AfterDue w c s h
  suspend-AfterDue w c s (limit_exceeded e) h = requeue-AfterDue w c s h

  resumed-AfterDue :
      (w : World V E) (c : ℕ) (s : Bool) (o : Outcome E)
      → Due n d w
      → AfterDue n d (
          if is_suspended (w.coroutines c).state
          then suspend host (record w { current_task = none }) c s o
          else complete host (record w { current_task = none }) c s)
  resumed-AfterDue w c s o h =
      let w₁ = record w { current_task = none } in
      AfterDue-if n d (is_suspended (w.coroutines c).state) (suspend host w₁ c s o)
        (complete host w₁ c s) (suspend-AfterDue w₁ c s o (record { holds = h.holds }))
        (complete-AfterDue w₁ c s (record { holds = h.holds }))

  after_resume-AfterDue :
      (w : World V E) (o : Outcome E) (c : ℕ) (s : Bool)
      → Due n d w
      → AfterDue n d (after_resume host (w, o) c s)
  after_resume-AfterDue w (limit_exceeded e) c s h = tt
  after_resume-AfterDue w (failed e) c s h = fail-AfterDue w c e s h
  after_resume-AfterDue w channel_wait c s h = resumed-AfterDue w c s channel_wait h
  after_resume-AfterDue w yielded c s h = resumed-AfterDue w c s yielded h
  after_resume-AfterDue w (sleep ms) c s h = resumed-AfterDue w c s (sleep ms) h

  drive-AfterDue : (w : World V E) (c : ℕ) (s : Bool) → Due n d w → AfterDue n d (drive host w c s)
  unfolding drive
  drive-AfterDue w c s h =
      let r = host.resume (entering host w c) c in
      after_resume-AfterDue r.0 r.1 c s
        (fair.resume n d (entering host w c) c (Due-kept n d w _ refl (λ y. ground arith) h))

  pub serve-AfterDue :
      (w : World V E) (c : ℕ) (s : Bool) → Due n d w → AfterDue n d (serve host w c s)
  unfolding serve
  serve-AfterDue w c s h =
      let x = w.coroutines c in
      AfterDue-if n d (is_finished x.state) _ _ h (
        AfterDue-if n d (overdue x.task_timeout_ms x.task_started_at w.now_ms) _ _
          (time_out-AfterDue w c s h) (drive-AfterDue w c s h))

-- The coroutine `d` needs no turn, or the loop ends, or this turn serves `d`.
abbrev pub ServesNow : {V E : Type 0} → Host V E → World V E → Bool → ℕ → Type 0
ServesNow {V} {E} host w stop d =
    (is_finished (w.coroutines d).state ≡ true)
    ⊎ Ends (turn host w stop)
    ⊎ ((w₁ : World V E) × (turn host w stop ≡ serve host w₁ d stop))

-- It is so within `n` more turns.
abbrev pub Served : {V E : Type 0} → Host V E → ℕ → World V E → Bool → ℕ → Type 0
Served {V} {E} host zero w stop d = ServesNow host w stop d
Served {V} {E} host (suc n) w stop d =
    ServesNow host w stop d
    ⊎ ((w₁ : World V E) × (s : Bool) × (turn host w stop ≡ goes w₁ s) × Served host n w₁ s d)
