-- ===== src/Basic/Scheduler/Pulses.antt =====
-- SchedulerImpl: `pulse`, with the timer that it leaves.
pub mod Rounds
use cpp_libp2p.Base.{
  ℕ, zero, suc, ◌+◌, ◌≤◌, ◌<◌, ◌≡◌, ◌⊎◌, refl, ap, ◌∙◌, sym, subst, some, List, [], ◌∷◌, ◌++◌,
  arith, inl, inr, lt_or_le, length, length-append, All, All-append, append_assoc, max, List-cases,
}
use cpp_libp2p.Basic.Scheduler.{
  Scheduler, CancelOrCb, Request, call_ready, set_timer, pulse_loop, pulse, read_clock,
}
use cpp_libp2p.Basic.Scheduler.Calls.{
  calls_of, times_scheduled, times_scheduled-append, Later, Later-refl, Later-suc, Later-trans,
  Monotone, NoneDue, ReadySpec, call_ready_lem,
}
use cpp_libp2p.Basic.Scheduler.Order.{Entries, IsSorted, IsSorted-suffix, All-map, NoneDue-All}

-- The backend's timer is set to `timer_`, or `timer_` is no time to come.
abbrev pub TimerIsKnown : Scheduler → Type 0
TimerIsKnown s = (s.timer_expires ≡ some s.timer) ⊎ (s.timer ≤ s.clock 0)

-- The timer is set, and early enough for every callback that waits.
abbrev pub IsArmed : ℕ → Scheduler → Type 0
IsArmed max_timer_threshold s =
    All (λ p. (s.timer_expires ≡ some s.timer) × (s.timer ≤ p.0 + max_timer_threshold)) s.callbacks

-- Of `pulse` from `s` to `r`: what is removed, up to which time, and the timer.
pub record PulseSpec (max_timer_threshold : ℕ) (s r : Scheduler) : Type 0 where
  pub time : ℕ
  pub removed : Entries
  pub split : s.callbacks ≡ removed ++ r.callbacks
  pub due : All (λ p. p.0 ≤ time) removed
  pub not_due : All (λ p. time < p.0) r.callbacks
  pub le_time : s.clock 0 ≤ time
  pub reached : time ≤ r.clock 0
  pub called : (cb : ℕ) → calls_of cb r.called ≡ calls_of cb s.called + times_scheduled cb removed
  pub armed : IsArmed max_timer_threshold r
  pub timer_known : TimerIsKnown r
  pub later : Later s.clock r.clock

set_timer_kept :
    (threshold now least : ℕ) (s : Scheduler)
    → now < s.timer
    → s.timer ≤ least + threshold
    → set_timer threshold now least s ≡ s
unfolding set_timer
set_timer_kept threshold now least s h k = ground arith

set_timer_set :
    (threshold now least : ℕ) (s : Scheduler)
    → (s.timer ≤ now) ⊎ (least + threshold < s.timer)
    → set_timer threshold now least s ≡ record s {
      timer = max (now + threshold) least;
      timer_expires = some (max (now + threshold) least);
    }
unfolding set_timer
set_timer_set threshold now least s h = ground arith

pub record TimerSpec (threshold now least : ℕ) (s r : Scheduler) : Type 0 where
  pub callbacks : r.callbacks ≡ s.callbacks
  pub called : r.called ≡ s.called
  pub clock : r.clock ≡ s.clock
  pub set : r.timer_expires ≡ some r.timer
  pub early : r.timer ≤ least + threshold

timer_is_set :
    (threshold now least : ℕ) (s : Scheduler)
    → now < least
    → (s.timer ≤ now) ⊎ (least + threshold < s.timer)
    → TimerSpec threshold now least s (set_timer threshold now least s)
timer_is_set threshold now least s lt h =
    rw (set_timer_set threshold now least s h)
      (record { callbacks = refl; called = refl; clock = refl; set = refl; early = omega arith })

timer_is_kept :
    (threshold now least : ℕ) (s : Scheduler)
    → s.timer_expires ≡ some s.timer
    → now < s.timer
    → s.timer ≤ least + threshold
    → TimerSpec threshold now least s (set_timer threshold now least s)
timer_is_kept threshold now least s e h k =
    subst (λ r. TimerSpec threshold now least s r) (sym (set_timer_kept threshold now least s h k))
      (record { callbacks = refl; called = refl; clock = refl; set = e; early = k })

pub set_timer_lem :
    (threshold now least : ℕ) (s : Scheduler)
    → now < least
    → (s.timer_expires ≡ some s.timer) ⊎ (s.timer ≤ now)
    → TimerSpec threshold now least s (set_timer threshold now least s)
set_timer_lem threshold now least s lt (inr le) = timer_is_set threshold now least s lt (inl le)
set_timer_lem threshold now least s lt (inl e) = elim (lt_or_le now s.timer) [
  | inr le ↦ timer_is_set threshold now least s lt (inl le)
  | inl h ↦ elim (lt_or_le (least + threshold) s.timer) [
    | inl far ↦ timer_is_set threshold now least s lt (inr far)
    | inr near ↦ timer_is_kept threshold now least s e h near
  ]
]

pub All-armed :
    (threshold now : ℕ) (r : Scheduler) (t : ℕ) (e : CancelOrCb) (es : Entries)
    → r.timer_expires ≡ some r.timer
    → r.timer ≤ t + threshold
    → IsSorted ((t, e) ∷ es)
    → All (λ p. (r.timer_expires ≡ some r.timer) × (r.timer ≤ p.0 + threshold)) ((t, e) ∷ es)
All-armed threshold now r t e es set early sorted =
    ((set, early), All-map es (λ p le. (set, omega arith)) sorted.0)
