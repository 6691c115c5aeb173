-- ===== src/Scheduler/Queue.antt =====
-- What the scheduler's own operations do to the ready queue: they append to it and leave the states
-- of the tasks alone.
use mathlib.Core.List.{append-nil, append_assoc}
use nodus.Prelude.{
  ℕ, ◌≡◌, refl, sym, ap, ◌∙◌, Bool, true, false, Option, none, some, List, [], ◌∷◌, ◌++◌, arith,
  leb, if◌then◌else◌,
}
use nodus.Channels.{is_empty}
use nodus.Tasks.{
  World, Channel, Coroutine, Timer, is_finished, is_suspended, contains, set_channel, set_coroutine,
  delivered,
}
use nodus.Waiting.{release_waiters, mark_completed}
use nodus.Waiting.Informs.{core-release, nobody_released}
use nodus.Waiting.Release.{sleepers, release_waiters-wakes, noted}
use nodus.Scheduler.{
  ℤ, schedule_sleep, wake_timer, drain_loop, drain_timers, hand, deliver_io, release_io, close_io,
  drain_io, drain_ios, drain_io_channels,
}
use nodus.Scheduler.Turn.{settle}

pub record Grows {V E : Type 0} (w w₁ : World V E) : Type 0 where
  pub more : List ℕ
  pub queue : w₁.ready_queue ≡ w.ready_queue ++ more
  pub states : (y : ℕ) → (w₁.coroutines y).state ≡ (w.coroutines y).state

module _ {V E : Type 0} where
  pub Grows-same :
      (w w₁ : World V E)
      → w₁.ready_queue ≡ w.ready_queue
      → ((y : ℕ) → (w₁.coroutines y).state ≡ (w.coroutines y).state)
      → Grows w w₁
  Grows-same w w₁ q s = record { more = []; queue = q ∙ sym (append-nil w.ready_queue); states = s }

  pub Grows-refl : (w : World V E) → Grows w w
  Grows-refl w = Grows-same w w refl (λ y. refl)

  pub Grows-trans : (w w₁ w₂ : World V E) → Grows w w₁ → Grows w₁ w₂ → Grows w w₂
  Grows-trans w w₁ w₂ g h = record {
    more = g.more ++ h.more;
    queue = h.queue ∙ ap (λ q. q ++ h.more) g.queue ∙ append_assoc w.ready_queue g.more h.more;
    states = λ y. h.states y ∙ g.states y;
  }

  Grows-if :
      (w w₁ w₂ : World V E) (b : Bool) → Grows w w₁ → Grows w w₂ → Grows w (if b then w₁ else w₂)
  Grows-if w w₁ w₂ true g h = g
  Grows-if w w₁ w₂ false g h = h

  pub Grows-release : (w : World V E) (t : ℕ) → Grows w (release_waiters w t)
  Grows-release w t = by_id (w.coroutines t).id refl
    where
      by_id : (o : Option ℕ) → (w.coroutines t).id ≡ o → Grows w (release_waiters w t)
      by_id none h =
          Grows-same w (release_waiters w t) (ap (λ u. u.ready_queue) (nobody_released w t h))
            λ y. ap (λ x. x.1) (core-release w t y)
      by_id (some i) h = record {
        more = sleepers w.coroutines (w.waiters i);
        queue = (release_waiters-wakes w t i h).1;
        states = λ y. ap (λ x. x.1) (core-release w t y);
      }

  pub Grows-mark_completed : (w : World V E) (t : ℕ) → Grows w (mark_completed w t)
  unfolding mark_completed
  Grows-mark_completed w t = by_id (w.coroutines t).id
    where
      by_id :
          (o : Option ℕ)
          → Grows w (elim o [
            | none ↦ w
            | some i ↦ if contains w.completed_ids i then w else release_waiters (noted w t i) t
          ])
      by_id none = Grows-refl w
      by_id (some i) =
          Grows-if w w (release_waiters (noted w t i) t) (contains w.completed_ids i) (Grows-refl w)
            (Grows-trans w (noted w t i) _ (Grows-same w (noted w t i) refl (λ y. refl))
              (Grows-release (noted w t i) t))

  pub Grows-settle : (w : World V E) (t : ℕ) → Grows w (settle w t)
  unfolding settle
  Grows-settle w t =
      Grows-trans w (mark_completed w t) _ (Grows-mark_completed w t)
        (Grows-same (mark_completed w t) _ refl λ y. refl)

  -- A coroutine is put at the end.
  Grows-append :
      (w w₁ : World V E) (c : ℕ)
      → w₁.ready_queue ≡ w.ready_queue ++ c ∷ []
      → ((y : ℕ) → (w₁.coroutines y).state ≡ (w.coroutines y).state)
      → Grows w w₁
  Grows-append w w₁ c q s = record { more = c ∷ []; queue = q; states = s }

  Grows-wake : (w : World V E) (c : ℕ) → Grows w (wake_timer w c)
  unfolding wake_timer
  Grows-wake w c =
      Grows-if w w _ (is_finished (w.coroutines c).state) (Grows-refl w)
        (Grows-append w _ c refl λ y. refl)

  Grows-drain_loop : (now : ℕ) (w : World V E) (ts : List Timer) → Grows w (drain_loop now w ts)
  unfolding drain_loop
  Grows-drain_loop now w [] = Grows-same w _ refl (λ y. refl)
  Grows-drain_loop now w (t ∷ ts) =
      Grows-if w _ _ (leb t.wake now)
        (Grows-trans w (wake_timer w t.sleeper) _ (Grows-wake w t.sleeper)
          (Grows-drain_loop now (wake_timer w t.sleeper) ts))
        (Grows-same w _ refl (λ y. refl))

  state-set :
      (w : World V E) (c : ℕ) (x : Coroutine V E)
      → x.state ≡ (w.coroutines c).state
      → (y : ℕ) → ((set_coroutine w c x).coroutines y).state ≡ (w.coroutines y).state
  state-set w c x h y = ground arith

  Grows-hand : (v : V) (w : World V E) (r : ℕ) → Grows w (hand v w r)
  Grows-hand v w r =
      Grows-if w _ w (is_suspended (w.coroutines r).state)
        (Grows-append w _ r refl (state-set w r (delivered v (w.coroutines r)) refl)) (Grows-refl w)

  Grows-hand_from :
      (v : V) (w : World V E) (h r : ℕ) (ch : Channel V) → Grows w (hand v (set_channel w h ch) r)
  Grows-hand_from v w h r ch =
      Grows-trans w (set_channel w h ch) _ (Grows-same w _ refl λ y. refl)
        (Grows-hand v (set_channel w h ch) r)

  Grows-deliver_io :
      (w : World V E) (h : ℕ) (vs : List V) (rs : List ℕ) → Grows w (deliver_io w h vs rs)
  unfolding deliver_io
  Grows-deliver_io w h [] rs = Grows-refl w
  Grows-deliver_io w h (v ∷ vs) [] = Grows-refl w
  Grows-deliver_io w h (v ∷ vs) (r ∷ rs) =
      let ch = record (w.channels h) { queue = vs; waiting_receivers = rs } in
      Grows-trans w _ _ (Grows-hand_from v w h r ch)
        (Grows-deliver_io (hand v (set_channel w h ch) r) h vs rs)

  Grows-release_io :
      (nil : V) (w : World V E) (h : ℕ) (rs : List ℕ) → Grows w (release_io nil w h rs)
  unfolding release_io
  Grows-release_io nil w h [] = Grows-refl w
  Grows-release_io nil w h (r ∷ rs) =
      let ch = record (w.channels h) { waiting_receivers = rs } in
      Grows-trans w _ _ (Grows-hand_from nil w h r ch)
        (Grows-release_io nil (hand nil (set_channel w h ch) r) h rs)

  Grows-close_io : (nil : V) (w : World V E) (h : ℕ) → Grows w (close_io nil w h)
  Grows-close_io nil w h =
      let w₁ = release_io nil w h (w.channels h).waiting_receivers in
      Grows-trans w w₁ _ (Grows-release_io nil w h _) (Grows-same w₁ _ refl λ y. refl)

  Grows-drain_io : (nil : V) (w : World V E) (h : ℕ) → Grows w (drain_io nil w h)
  unfolding drain_io
  Grows-drain_io nil w h =
      let w₁ = deliver_io w h (w.channels h).queue (w.channels h).waiting_receivers in
      Grows-trans w w₁ _ (Grows-deliver_io w h _ _) (
        Grows-if w₁ _ _ (w₁.channels h).closed (Grows-close_io nil w₁ h) (
          Grows-if w₁ _ w₁ (is_empty (w₁.channels h).waiting_receivers)
            (Grows-same w₁ _ refl λ y. refl) (Grows-refl w₁)))

  Grows-drain_ios : (nil : V) (w : World V E) (hs : List ℕ) → Grows w (drain_ios nil w hs)
  unfolding drain_ios
  Grows-drain_ios nil w [] = Grows-refl w
  Grows-drain_ios nil w (h ∷ hs) =
      Grows-trans w (drain_io nil w h) _ (Grows-drain_io nil w h)
        (Grows-drain_ios nil (drain_io nil w h) hs)

  -- one round of wake-ups
  pub Grows-drain : (nil : V) (w : World V E) → Grows w (drain_io_channels nil (drain_timers w))
  unfolding drain_timers
  Grows-drain nil w =
      Grows-trans w (drain_timers w) _ (Grows-drain_loop w.now_ms w w.timers)
        (Grows-drain_ios nil (drain_timers w) _)

  pub Grows-sleep : (w : World V E) (c : ℕ) (ms : ℤ) → Grows w (schedule_sleep w c ms)
  unfolding schedule_sleep
  Grows-sleep w c ms = Grows-same w _ refl λ y. refl
