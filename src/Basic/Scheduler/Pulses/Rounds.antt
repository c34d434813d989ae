-- ===== src/Basic/Scheduler/Pulses/Rounds.antt =====
-- SchedulerImpl: the rounds of `pulse`.
use cpp_libp2p.Base.{
  ℕ, zero, suc, ◌+◌, ◌≤◌, ◌<◌, ◌≡◌, ◌⊎◌, refl, ap, ◌∙◌, sym, subst, some, List, [], ◌∷◌, ◌++◌,
  arith, inl, inr, length, length-append, All, All-append, append_assoc, List-cases,
}
use cpp_libp2p.Basic.Scheduler.{
  Scheduler, CancelOrCb, Request, call_ready, set_timer, pulse_loop, pulse, read_clock,
}
use cpp_libp2p.Basic.Scheduler.Calls.{
  calls_of, times_scheduled, times_scheduled-append, Later, Later-refl, Later-suc, Later-trans,
  Monotone, NoneDue, ReadySpec, call_ready_lem,
}
use cpp_libp2p.Basic.Scheduler.Order.{Entries, IsSorted, IsSorted-suffix, All-map, NoneDue-All}
use cpp_libp2p.Basic.Scheduler.Pulses.{All-armed, PulseSpec, TimerIsKnown, set_timer_lem}

module _ (effects : ℕ → Scheduler → List Request) (threshold : ℕ) where
  timer_is_known :
      (now a b : ℕ) (s : Scheduler) (r : ℕ × Scheduler)
      → ReadySpec effects now s r
      → a ≤ b
      → (s.timer_expires ≡ some s.timer) ⊎ (s.timer ≤ a)
      → (r.1.timer_expires ≡ some r.1.timer) ⊎ (r.1.timer ≤ b)
  timer_is_known now a b s r ready h (inl e) =
      inl (ready.timer_expires ∙ e ∙ ap some (sym ready.timer))
  timer_is_known now a b s r ready h (inr le) = inr (omega (arith, ready.timer))

  -- A `callReady`, and the rest of the pulse.
  extend :
      (now : ℕ) (s : Scheduler) (r : ℕ × Scheduler) (q : Scheduler)
      → ReadySpec effects now s r
      → Monotone s.clock
      → now ≤ r.1.clock 0
      → PulseSpec threshold r.1 q
      → PulseSpec threshold s q
  extend now s r q ready mono le i = record {
    time = i.time;
    removed = ready.removed ++ i.removed;
    split =
        ready.split
        ∙ ap (λ l. ready.removed ++ l) i.split
        ∙ sym (append_assoc ready.removed i.removed q.callbacks);
    due =
        All-append (λ p. p.0 ≤ i.time) ready.removed i.removed
          (All-map ready.removed (λ p h. omega (arith, h, le, i.le_time)) ready.due) i.due;
    not_due = i.not_due;
    le_time = omega (arith, ready.later.le mono, i.le_time);
    reached = i.reached;
    called = λ cb.
        omega
          (arith, i.called cb, ready.called cb, times_scheduled-append cb ready.removed i.removed);
    armed = i.armed;
    timer_known = i.timer_known;
    later = Later-trans ready.later i.later;
  }

  after_reading :
      (s q : Scheduler)
      → Monotone s.clock
      → PulseSpec threshold (read_clock s) q
      → PulseSpec threshold s q
  after_reading s q mono i = record {
    time = i.time;
    removed = i.removed;
    split = i.split;
    due = i.due;
    not_due = i.not_due;
    le_time = omega (arith, mono 0, i.le_time);
    reached = i.reached;
    called = i.called;
    armed = i.armed;
    timer_known = i.timer_known;
    later = Later-trans (Later-suc s.clock) i.later;
  }

  -- No callback was due, and the timer is set.
  finish :
      (least : ℕ) (e : CancelOrCb) (rest : Entries) (s : Scheduler) (r : ℕ × Scheduler)
      → let s0 : Scheduler = record s { callbacks = (least, e) ∷ rest } in
        (ready : ReadySpec effects (s.clock 0) (read_clock s0) r)
        → ready.removed ≡ []
        → Monotone s.clock
        → TimerIsKnown s
        → IsSorted ((least, e) ∷ rest)
        → PulseSpec threshold s0 (set_timer threshold (s.clock 0) least r.1)
  finish least e rest s r ready none_removed mono known sorted =
      let s0 : Scheduler = record s { callbacks = (least, e) ∷ rest } in
      let q = set_timer threshold (s.clock 0) least r.1 in
      let kept : r.1.callbacks ≡ (least, e) ∷ rest =
        ap (λ l. l ++ r.1.callbacks) (sym none_removed) ∙ sym ready.split in
      let not_due : NoneDue (s.clock 0) ((least, e) ∷ rest) =
        subst (NoneDue (s.clock 0)) kept ready.none_due in
      let k = set_timer_lem threshold (s.clock 0) least r.1 not_due (
        timer_is_known (s.clock 0) (s.clock 0) (s.clock 0) (read_clock s0) r ready (omega arith)
          known) in
      let same : q.callbacks ≡ (least, e) ∷ rest = k.callbacks ∙ kept in
      let later : Later s.clock q.clock =
        subst (Later s.clock) (sym k.clock) (Later-trans (Later-suc s.clock) ready.later) in
      record {
        time = s.clock 0;
        removed = [];
        split = sym same;
        due = tt;
        not_due =
            subst (All (λ p. s.clock 0 < p.0)) (sym same)
              (NoneDue-All (s.clock 0) ((least, e) ∷ rest) sorted not_due);
        le_time = omega arith;
        reached = later.le mono;
        called = λ cb. omega (
          arith,
          ap (calls_of cb) k.called,
          ready.called cb,
          ap (times_scheduled cb) none_removed,
        );
        armed =
            subst (All (λ p. (q.timer_expires ≡ some q.timer) × (q.timer ≤ p.0 + threshold)))
              (sym same) (All-armed threshold (s.clock 0) q least e rest k.set k.early sorted);
        timer_known = inl k.set;
        later = later;
      }

  pub round_more :
      (fuel least n : ℕ) (e : CancelOrCb) (rest : Entries) (s : Scheduler)
      → let s0 : Scheduler = record s { callbacks = (least, e) ∷ rest } in
        let r = call_ready effects (s.clock 0) (read_clock s0) in
        r.0 ≡ suc n
        → pulse_loop effects threshold (suc fuel) s0 ≡ pulse_loop effects threshold fuel r.1
  unfolding pulse_loop
  round_more fuel least n e rest s h = ground arith

  pub round_last :
      (fuel least : ℕ) (e : CancelOrCb) (rest : Entries) (s : Scheduler)
      → let s0 : Scheduler = record s { callbacks = (least, e) ∷ rest } in
        let r = call_ready effects (s.clock 0) (read_clock s0) in
        r.0 ≡ 0
        → pulse_loop effects threshold (suc fuel) s0 ≡ set_timer threshold (s.clock 0) least r.1
  unfolding pulse_loop
  round_last fuel least e rest s h = ground arith

  pub no_fuel : (s : Scheduler) → pulse_loop effects threshold zero s ≡ s
  unfolding pulse_loop
  no_fuel s = refl

  pub loop_done :
      (fuel : ℕ) (s : Scheduler)
      → pulse_loop effects threshold (suc fuel) (record s { callbacks = [] })
        ≡ record s { callbacks = [] }
  unfolding pulse_loop
  loop_done fuel s = refl

  loop_lem :
      (fuel : ℕ) (cs : Entries) (s : Scheduler)
      → length cs < fuel
      → IsSorted cs
      → Monotone s.clock
      → TimerIsKnown s
      → PulseSpec threshold
          (record s { callbacks = cs })
          (pulse_loop effects threshold fuel (record s { callbacks = cs }))
  loop_lem zero cs s h sorted mono known = absurd (omega arith)
  loop_lem (suc fuel) [] s h sorted mono known = rw (loop_done fuel s) (record {
    time = s.clock 0;
    removed = [];
    split = refl;
    due = tt;
    not_due = tt;
    le_time = omega arith;
    reached = omega arith;
    called = λ cb. omega arith;
    armed = tt;
    timer_known = known;
    later = Later-refl s.clock;
  })
  loop_lem (suc fuel) ((least, e) ∷ rest) s h sorted mono known =
      let s0 : Scheduler = record s { callbacks = (least, e) ∷ rest } in
      let r = call_ready effects (s.clock 0) (read_clock s0) in
      let ready = call_ready_lem effects (s.clock 0) (read_clock s0) in
      elim (List-cases ready.removed) [
        | inl none_removed ↦
            rw (round_last fuel least e rest s (ready.size ∙ ap length none_removed))
              (finish least e rest s r ready none_removed mono known sorted)
        | inr (x, xs, more) ↦
            let size : r.0 ≡ suc (length xs) = ready.size ∙ ap length more in
            let le : s.clock 0 ≤ r.1.clock 0 =
              omega (arith, mono 0, ready.later.le (λ n. mono (suc n))) in
            let i =
              loop_lem fuel r.1.callbacks r.1
                (omega (
                  arith,
                  h,
                  size,
                  ready.size,
                  ap length ready.split,
                  length-append ready.removed r.1.callbacks,
                ))
                (IsSorted-suffix ready.removed r.1.callbacks (subst IsSorted ready.split sorted))
                (ready.later.monotone (λ n. mono (suc n)))
                (timer_is_known (s.clock 0) (s.clock 0) (r.1.clock 0) (read_clock s0) r ready le
                  known) in
            rw (round_more fuel least (length xs) e rest s size) (
              after_reading s0 (pulse_loop effects threshold fuel r.1) mono (
                extend (s.clock 0) (read_clock s0) r (pulse_loop effects threshold fuel r.1) ready
                  (λ n. mono (suc n)) le i))
      ]

  -- A pulse returns with every callback that is not later than some time gone from the map and every
  -- later one kept, where this time is not before the clock at the start and not after the clock at
  -- the end, so that nothing leaves before its time. The callbacks without a handle are called as
  -- often as they leave the map. The timer is then set, to the threshold behind the next callback at
  -- the latest. The map is sorted, the clock does not go back, and `timer_` is the time of the
  -- backend's timer or past.
  pub pulse_lem :
      (s : Scheduler)
      → IsSorted s.callbacks
      → Monotone s.clock
      → TimerIsKnown s
      → PulseSpec threshold s (pulse effects threshold s)
  unfolding pulse
  pulse_lem s sorted mono known =
      let r = call_ready effects 0 s in
      let ready = call_ready_lem effects 0 s in
      let i =
        loop_lem (suc (length r.1.callbacks)) r.1.callbacks r.1 (omega arith)
          (IsSorted-suffix ready.removed r.1.callbacks (subst IsSorted ready.split sorted))
          (ready.later.monotone mono)
          (timer_is_known 0 (s.clock 0) (r.1.clock 0) s r ready (ready.later.le mono) known) in
      extend 0 s r (pulse effects threshold s) ready mono (omega arith) i
