-- ===== src/Basic/Scheduler/Timer.antt =====
-- SchedulerImpl with its backend: the invariant of every run, and that no callback waits too long.
use cpp_libp2p.Base.{
  ℕ, ◌+◌, ◌≤◌, ◌<◌, ◌≡◌, refl, ap, sym, subst, ◌∙◌, Bool-cases, Option, some, none, some_inj, List,
  [], ◌∷◌, arith, inl, inr, leb, All,
}
use cpp_libp2p.Basic.Scheduler.{
  Scheduler, CancelOrCb, Request, Posted, Event, is_cancelled, perform, pulse, call_posted,
  call_deferred, fire_timer, step, run, new_scheduler, emplace_at,
}
use cpp_libp2p.Basic.Scheduler.Calls.{
  Later, Later-refl, Monotone, calls_of, times_scheduled, times_scheduled-append, perform-Keeps,
}
use cpp_libp2p.Basic.Scheduler.Order.{
  IsSorted, IsSorted-suffix, All-map, All-erase, erase-IsSorted, emplace_at_lem,
}
use cpp_libp2p.Basic.Scheduler.Pulses.{TimerIsKnown, IsArmed, PulseSpec}
use cpp_libp2p.Basic.Scheduler.Pulses.Rounds.{pulse_lem}

-- Of every scheduler that runs.
pub record IsReady (threshold : ℕ) (s : Scheduler) : Type 0 where
  pub sorted : IsSorted s.callbacks
  pub monotone : Monotone s.clock
  pub timer_known : TimerIsKnown s
  pub armed : IsArmed threshold s

pub new_scheduler-IsReady :
    (threshold timer : ℕ) (clock : ℕ → ℕ)
    → Monotone clock
    → timer ≤ clock 0
    → IsReady threshold (new_scheduler timer clock)
new_scheduler-IsReady threshold timer clock mono le = record {
  sorted = tt;
  monotone = mono;
  timer_known = inr le;
  armed = tt;
}

module _ (effects : ℕ → Scheduler → List Request) (threshold : ℕ) where
  pulse-IsReady :
      (s : Scheduler)
      → IsSorted s.callbacks
      → Monotone s.clock
      → TimerIsKnown s
      → IsReady threshold (pulse effects threshold s)
  pulse-IsReady s sorted mono known =
      let p = pulse_lem effects threshold s sorted mono known in
      record {
        sorted =
            IsSorted-suffix p.removed (pulse effects threshold s).callbacks
              (subst IsSorted p.split sorted);
        monotone = p.later.monotone mono;
        timer_known = p.timer_known;
        armed = p.armed;
      }

  IsReady-kept :
      (s r : Scheduler)
      → r.callbacks ≡ s.callbacks
      → r.timer ≡ s.timer
      → r.timer_expires ≡ s.timer_expires
      → Later s.clock r.clock
      → IsReady threshold s
      → IsReady threshold r
  IsReady-kept s r c t e later v = record {
    sorted = subst IsSorted (sym c) v.sorted;
    monotone = later.monotone v.monotone;
    timer_known = elim v.timer_known [
      | inl k ↦ inl (e ∙ k ∙ ap some (sym t))
      | inr le ↦ inr (omega (arith, later.le v.monotone))
    ];
    armed =
        subst (All (λ p. (r.timer_expires ≡ some r.timer) × (r.timer ≤ p.0 + threshold))) (sym c)
          (All-map s.callbacks (λ p h. (e ∙ h.0 ∙ ap some (sym t), omega (arith, h.1))) v.armed);
  }

  perform-IsReady :
      (r : Request) (s : Scheduler) → IsReady threshold s → IsReady threshold (perform r s)
  perform-IsReady r s v =
      let k = perform-Keeps r s in
      IsReady-kept s (perform r s) k.callbacks k.timer k.timer_expires k.later v

  emplace-IsReady :
      (t : ℕ) (e : CancelOrCb) (s : Scheduler)
      → IsReady threshold s
      → IsReady threshold
          (pulse effects threshold (record s { callbacks = emplace_at t e s.callbacks }))
  emplace-IsReady t e s v =
      pulse-IsReady (record s { callbacks = emplace_at t e s.callbacks })
        (emplace_at_lem t e s.callbacks v.sorted).sorted v.monotone v.timer_known

  call_posted-IsReady :
      (p : Posted) (s : Scheduler)
      → IsReady threshold s
      → IsReady threshold (call_posted effects threshold p s)
  unfolding call_posted
  call_posted-IsReady (Posted.emplace abs (CancelOrCb.callback cb)) s v =
      emplace-IsReady abs (CancelOrCb.callback cb) s v
  call_posted-IsReady (Posted.emplace abs (CancelOrCb.cancel_cb g cb)) s v =
      elim (Bool-cases (is_cancelled g s)) [
        | inl y ↦ rw y v
        | inr n ↦ rw n (emplace-IsReady abs (CancelOrCb.cancel_cb g cb) s v)
      ]
  call_posted-IsReady (Posted.erase g) s v = record {
    sorted = erase-IsSorted g s.callbacks v.sorted;
    monotone = v.monotone;
    timer_known = v.timer_known;
    armed =
        All-erase (λ p. (s.timer_expires ≡ some s.timer) × (s.timer ≤ p.0 + threshold)) g
          s.callbacks v.armed;
  }

  deferred-IsReady :
      (ps : List Posted) (s : Scheduler)
      → IsReady threshold s
      → IsReady threshold (call_deferred effects threshold (record s { posted = ps }))
  unfolding call_deferred
  deferred-IsReady [] s v =
      IsReady-kept s (record s { posted = [] }) refl refl refl (Later-refl s.clock) v
  deferred-IsReady (p ∷ ps) s v =
      call_posted-IsReady p (record s { posted = ps })
        (IsReady-kept s (record s { posted = ps }) refl refl refl (Later-refl s.clock) v)

  -- The pulse of the timer finds the timer past.
  fired :
      (t : ℕ) (s : Scheduler)
      → t ≤ s.clock 0
      → IsReady threshold (record s { timer_expires = some t })
      → PulseSpec threshold
          (record s { timer_expires = none })
          (pulse effects threshold (record s { timer_expires = none }))
  fired t s le v =
      pulse_lem effects threshold (record s { timer_expires = none }) v.sorted v.monotone
        (inr (elim v.timer_known [
          | inl k ↦ let e : t ≡ s.timer = some_inj k in omega (arith, e)
          | inr past ↦ past
        ]))

  -- What a look at the timer leaves.
  pub record FireSpec (s r : Scheduler) : Type 0 where
    pub ready : IsReady threshold r
    pub in_time : All (λ p. s.clock 0 < p.0 + threshold) r.callbacks
    pub called :
        (cb : ℕ)
        → calls_of cb r.called + times_scheduled cb r.callbacks
          ≡ calls_of cb s.called + times_scheduled cb s.callbacks

  waits :
      (s : Scheduler)
      → IsReady threshold s
      → All (λ p. s.clock 0 < p.0 + threshold) s.callbacks
      → FireSpec s s
  waits s v h = record { ready = v; in_time = h; called = λ cb. refl }

  fires :
      (t : ℕ) (s : Scheduler)
      → t ≤ s.clock 0
      → IsReady threshold (record s { timer_expires = some t })
      → FireSpec
          (record s { timer_expires = some t })
          (pulse effects threshold (record s { timer_expires = none }))
  fires t s le v =
      let r = pulse effects threshold (record s { timer_expires = none }) in
      let p = fired t s le v in
      record {
        ready = record {
          sorted = IsSorted-suffix p.removed r.callbacks (subst IsSorted p.split v.sorted);
          monotone = p.later.monotone v.monotone;
          timer_known = p.timer_known;
          armed = p.armed;
        };
        in_time = All-map r.callbacks (λ q h. omega (arith, h, p.le_time)) p.not_due;
        called = λ cb. omega (
          arith,
          p.called cb,
          ap (times_scheduled cb) p.split,
          times_scheduled-append cb p.removed r.callbacks,
        );
      }

  fire_cases :
      (o : Option ℕ) (s : Scheduler)
      → let s0 : Scheduler = record s { timer_expires = o } in
        IsReady threshold s0 → FireSpec s0 (fire_timer effects threshold s0)
  unfolding fire_timer
  fire_cases none s v =
      waits (record s { timer_expires = none }) v
        (All-map s.callbacks (λ p h. absurd (no_timer h.0)) v.armed)
    where
      no_timer : none ≡ some s.timer → ⊥
      no_timer e = cc
  fire_cases (some t) s v = elim (Bool-cases (leb t (s.clock 0))) [
    | inl y ↦ rw y (fires t s (ground arith) v)
    | inr n ↦ rw n (
        waits (record s { timer_expires = some t }) v
          (All-map s.callbacks
            (λ p h.
              let e : t ≡ s.timer = some_inj h.0 in
              let lt : s.clock 0 < t = ground arith in omega (arith, h.1, e, lt))
            v.armed))
  ]

  -- When the backend has looked at its timer, no callback waits `max_timer_threshold` longer than
  -- it was to wait, the callbacks without a handle are called as often as they leave the map, and
  -- the scheduler is ready again. The scheduler is ready before: its map is in the order of the time,
  -- its clock does not go back, `timer_` is the time of the backend's timer or past, and the timer is
  -- set early enough for every callback that waits.
  pub fire_timer_lem :
      (s : Scheduler) → IsReady threshold s → FireSpec s (fire_timer effects threshold s)
  fire_timer_lem s v = fire_cases s.timer_expires s v

  -- Every run of a ready scheduler, whatever the callbacks do, keeps it ready: the map is in the
  -- order of the time, and the timer is set early enough for every callback that waits.
  pub run-IsReady :
      (es : List Event) (s : Scheduler)
      → IsReady threshold s
      → IsReady threshold (run effects threshold es s)
  unfolding run step
  run-IsReady [] s v = v
  run-IsReady (Event.request r ∷ es) s v = run-IsReady es (perform r s) (perform-IsReady r s v)
  run-IsReady (Event.deferred ∷ es) s v =
      run-IsReady es (call_deferred effects threshold s) (deferred-IsReady s.posted s v)
  run-IsReady (Event.timer_fires ∷ es) s v =
      run-IsReady es (fire_timer effects threshold s) (fire_timer_lem s v).ready
