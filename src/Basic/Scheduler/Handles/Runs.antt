-- ===== src/Basic/Scheduler/Handles/Runs.antt =====
-- SchedulerImpl: a callback with a handle in every run.
use cpp_libp2p.Base.{
  ℕ, zero, suc, ◌-◌, ◌≤◌, ◌≡◌, refl, sym, subst, true, Bool-cases, Option, some, none, List, [],
  ◌∷◌, ◌++◌, arith, inl, inr, leb, length, lt_or_le, zero_cases,
}
use cpp_libp2p.Basic.Scheduler.{
  Scheduler, CancelOrCb, Request, Posted, Event, is_cancelled, perform, cancel_handle, call,
  call_node, call_loop, call_ready, pulse_loop, pulse, call_posted, call_deferred, fire_timer, step,
  run, new_scheduler, read_clock, emplace_at, erase_handle,
}
use cpp_libp2p.Basic.Scheduler.Calls.{loop_zero, loop_stop, loop_due}
use cpp_libp2p.Basic.Scheduler.Pulses.Rounds.{round_more, round_last, loop_done, no_fuel}
use cpp_libp2p.Basic.Scheduler.Handles.{
  Guarded, Guarded-same, Guarded-trans, call-Guarded, cancel_flags, flagged, handle_calls,
  handle_calls-append, perform-Guarded, perform_all-Guarded, set_timer-Guarded,
}

module _ (effects : ℕ → Scheduler → List Request) (threshold : ℕ) where
  node-Guarded : (h : ℕ) (e : CancelOrCb) (s : Scheduler) → Guarded h s (call_node effects e s)
  unfolding call_node call
  node-Guarded h (CancelOrCb.callback cb) s =
      let s1 : Scheduler = record s { called = s.called ++ CancelOrCb.callback cb ∷ [] } in
      let first : Guarded h s s1 = record {
        calls = omega (arith, handle_calls-append h s.called (CancelOrCb.callback cb ∷ []));
        budget_le = omega arith;
        more = omega (arith, handle_calls-append h s.called (CancelOrCb.callback cb ∷ []));
      } in
      Guarded-trans first (perform_all-Guarded h (effects cb s) s1)
  node-Guarded h (CancelOrCb.cancel_cb g cb) s = elim (Bool-cases (is_cancelled g s)) [
    | inl y ↦ rw y (Guarded-same s s refl refl)
    | inr n ↦
        let s0 : Scheduler = record s { cancelled = g ∷ s.cancelled } in
        let s1 : Scheduler = record s0 { called = s.called ++ CancelOrCb.cancel_cb g cb ∷ [] } in
        rw n (Guarded-trans (call-Guarded h g cb s n) (perform_all-Guarded h (effects cb s0) s1))
  ]

  loop-Guarded :
      (h fuel now : ℕ) (cs : List (ℕ × CancelOrCb)) (s : Scheduler)
      → Guarded h s (call_loop effects fuel now (record s { callbacks = cs })).1
  loop-Guarded h fuel now [] s =
      rw (loop_stop effects fuel now [] s tt)
        (Guarded-same s (record s { callbacks = [] }) refl refl)
  loop-Guarded h zero now ((t, e) ∷ rest) s =
      let s0 : Scheduler = record s { callbacks = (t, e) ∷ rest } in
      rw (loop_zero effects now s0) (Guarded-same s s0 refl refl)
  loop-Guarded h (suc fuel) now ((t, e) ∷ rest) s = elim (lt_or_le now t) [
    | inl lt ↦
        let s0 : Scheduler = record s { callbacks = (t, e) ∷ rest } in
        rw (loop_stop effects (suc fuel) now ((t, e) ∷ rest) s lt) (Guarded-same s s0 refl refl)
    | inr le ↦
        let s1 : Scheduler = record s { callbacks = rest } in
        let s2 = call_node effects e s1 in
        rw (loop_due effects fuel now t e rest s le) (
          Guarded-trans (Guarded-same s s1 refl refl)
            (Guarded-trans (node-Guarded h e s1) (loop-Guarded h fuel now s2.callbacks s2)))
  ]

  ready-Guarded : (h now : ℕ) (s : Scheduler) → Guarded h s (call_ready effects now s).1
  unfolding call_ready
  ready-Guarded h now s = loop-Guarded h (length s.callbacks) now s.callbacks s

  round-Guarded :
      (h fuel : ℕ)
      → ((s : Scheduler) → Guarded h s (pulse_loop effects threshold fuel s))
      → (cs : List (ℕ × CancelOrCb)) (s : Scheduler)
      → Guarded h s (pulse_loop effects threshold (suc fuel) (record s { callbacks = cs }))
  round-Guarded h fuel i [] s =
      rw (loop_done effects threshold fuel s)
        (Guarded-same s (record s { callbacks = [] }) refl refl)
  round-Guarded h fuel i ((least, e) ∷ rest) s =
      let s0 : Scheduler = record s { callbacks = (least, e) ∷ rest } in
      let r = call_ready effects (s.clock 0) (read_clock s0) in
      let first : Guarded h s r.1 =
        Guarded-trans (Guarded-same s (read_clock s0) refl refl)
          (ready-Guarded h (s.clock 0) (read_clock s0)) in
      elim (zero_cases r.0) [
        | inl z ↦
            rw (round_last effects threshold fuel least e rest s z)
              (Guarded-trans first (set_timer-Guarded h threshold (s.clock 0) least r.1))
        | inr some_removed ↦
            rw (round_more effects threshold fuel least (r.0 - 1) e rest s (omega arith))
              (Guarded-trans first (i r.1))
      ]

  pulse_loop-Guarded :
      (h fuel : ℕ) (s : Scheduler) → Guarded h s (pulse_loop effects threshold fuel s)
  pulse_loop-Guarded h zero s =
      subst (Guarded h s) (sym (no_fuel effects threshold s)) (Guarded-same s s refl refl)
  pulse_loop-Guarded h (suc fuel) s = round-Guarded h fuel (pulse_loop-Guarded h fuel) s.callbacks s

  pulse-Guarded : (h : ℕ) (s : Scheduler) → Guarded h s (pulse effects threshold s)
  unfolding pulse
  pulse-Guarded h s =
      let s1 = (call_ready effects 0 s).1 in
      Guarded-trans (ready-Guarded h 0 s) (pulse_loop-Guarded h (suc (length s1.callbacks)) s1)

  call_posted-Guarded :
      (h : ℕ) (p : Posted) (s : Scheduler) → Guarded h s (call_posted effects threshold p s)
  unfolding call_posted
  call_posted-Guarded h (Posted.emplace abs (CancelOrCb.callback cb)) s =
      let s1 : Scheduler = record s {
        callbacks = emplace_at abs (CancelOrCb.callback cb) s.callbacks;
      } in
      Guarded-trans (Guarded-same s s1 refl refl) (pulse-Guarded h s1)
  call_posted-Guarded h (Posted.emplace abs (CancelOrCb.cancel_cb g cb)) s =
      elim (Bool-cases (is_cancelled g s)) [
        | inl y ↦ rw y (Guarded-same s s refl refl)
        | inr n ↦
            let s1 : Scheduler = record s {
              callbacks = emplace_at abs (CancelOrCb.cancel_cb g cb) s.callbacks;
            } in
            rw n (Guarded-trans (Guarded-same s s1 refl refl) (pulse-Guarded h s1))
      ]
  call_posted-Guarded h (Posted.erase g) s =
      Guarded-same s (record s { callbacks = erase_handle g s.callbacks }) refl refl

  deferred-Guarded :
      (h : ℕ) (ps : List Posted) (s : Scheduler)
      → Guarded h s (call_deferred effects threshold (record s { posted = ps }))
  unfolding call_deferred
  deferred-Guarded h [] s = Guarded-same s (record s { posted = [] }) refl refl
  deferred-Guarded h (p ∷ ps) s =
      let s1 : Scheduler = record s { posted = ps } in
      Guarded-trans (Guarded-same s s1 refl refl) (call_posted-Guarded h p s1)

  fire-Guarded :
      (h : ℕ) (o : Option ℕ) (s : Scheduler)
      → Guarded h s (fire_timer effects threshold (record s { timer_expires = o }))
  unfolding fire_timer
  fire-Guarded h none s = Guarded-same s (record s { timer_expires = none }) refl refl
  fire-Guarded h (some t) s = elim (Bool-cases (leb t (s.clock 0))) [
    | inl y ↦
        let s1 : Scheduler = record s { timer_expires = none } in
        rw y (Guarded-trans (Guarded-same s s1 refl refl) (pulse-Guarded h s1))
    | inr n ↦ rw n (Guarded-same s (record s { timer_expires = some t }) refl refl)
  ]

  run-Guarded : (h : ℕ) (es : List Event) (s : Scheduler) → Guarded h s (run effects threshold es s)
  unfolding run step
  run-Guarded h [] s = Guarded-same s s refl refl
  run-Guarded h (Event.request r ∷ es) s =
      Guarded-trans (perform-Guarded h r s) (run-Guarded h es (perform r s))
  run-Guarded h (Event.deferred ∷ es) s =
      Guarded-trans (deferred-Guarded h s.posted s)
        (run-Guarded h es (call_deferred effects threshold s))
  run-Guarded h (Event.timer_fires ∷ es) s =
      Guarded-trans (fire-Guarded h s.timer_expires s)
        (run-Guarded h es (fire_timer effects threshold s))

  -- A callback with a handle is called once at most in any run of a new scheduler, and from when
  -- the handle is cancelled, or the callback called, no run calls it.
  pub run-handle_calls :
      (h timer : ℕ) (clock : ℕ → ℕ) (before after : List Event)
      → let s = run effects threshold before (new_scheduler timer clock) in
        (handle_calls h (run effects threshold after s).called ≤ 1)
        × (is_cancelled h s ≡ true
            → handle_calls h (run effects threshold after s).called ≡ handle_calls h s.called)
        × (handle_calls h s.called ≡ 1 → handle_calls h (run effects threshold after s).called ≡ 1)
        × (is_cancelled h (cancel_handle h s) ≡ true)
  run-handle_calls h timer clock before after =
      let s = run effects threshold before (new_scheduler timer clock) in
      let a = run-Guarded h before (new_scheduler timer clock) in
      let b = run-Guarded h after s in
      (
        omega (arith, a.calls, b.calls),
        λ flag. let k = flagged h s flag in omega (arith, k, b.calls, b.more),
        λ e. omega (arith, e, a.calls, b.calls, b.more),
        cancel_flags h s,
      )
