-- ===== src/Basic/Scheduler/Calls.antt =====
-- SchedulerImpl: `callReady`, and what the requests of a callback leave as it is.
use cpp_libp2p.Base.{
  ℕ, zero, suc, ◌+◌, ◌≤◌, ◌<◌, ◌≡◌, refl, ap, ◌∙◌, sym, subst, true, false, Bool-cases, List, [],
  ◌∷◌, ◌++◌, arith, one, inl, inr, leb, lt_or_le, ltb, Bool, length, All,
}
use cpp_libp2p.Basic.Scheduler.{
  Scheduler, CancelOrCb, Request, perform, perform_all, schedule_callback, cancel_handle, call,
  call_node, call_loop, call_ready, is_cancelled,
}

-- How many calls of the callback `cb`, scheduled without a handle, are recorded.
abbrev pub calls_of : ℕ → List CancelOrCb → ℕ
calls_of cb [] = 0
calls_of cb (CancelOrCb.callback c ∷ es) = one cb c + calls_of cb es
calls_of cb (CancelOrCb.cancel_cb h c ∷ es) = calls_of cb es

-- How often it is scheduled.
abbrev pub times_scheduled : ℕ → List (ℕ × CancelOrCb) → ℕ
times_scheduled cb [] = 0
times_scheduled cb ((t, CancelOrCb.callback c) ∷ es) = one cb c + times_scheduled cb es
times_scheduled cb ((t, CancelOrCb.cancel_cb h c) ∷ es) = times_scheduled cb es

pub calls_of-append :
    (cb : ℕ) (xs ys : List CancelOrCb) → calls_of cb (xs ++ ys) ≡ calls_of cb xs + calls_of cb ys
calls_of-append cb [] ys = omega arith
calls_of-append cb (CancelOrCb.callback c ∷ xs) ys = omega (arith, calls_of-append cb xs ys)
calls_of-append cb (CancelOrCb.cancel_cb h c ∷ xs) ys = omega (arith, calls_of-append cb xs ys)

pub times_scheduled-append :
    (cb : ℕ) (xs ys : List (ℕ × CancelOrCb))
    → times_scheduled cb (xs ++ ys) ≡ times_scheduled cb xs + times_scheduled cb ys
times_scheduled-append cb [] ys = omega arith
times_scheduled-append cb ((t, CancelOrCb.callback c) ∷ xs) ys =
    omega (arith, times_scheduled-append cb xs ys)
times_scheduled-append cb ((t, CancelOrCb.cancel_cb h c) ∷ xs) ys =
    omega (arith, times_scheduled-append cb xs ys)

-- The clock does not go back.
abbrev pub Monotone : (ℕ → ℕ) → Type 0
Monotone clock = (i : ℕ) → clock i ≤ clock (suc i)

pub record Later (before after : ℕ → ℕ) : Type 0 where
  pub monotone : Monotone before → Monotone after
  pub le : Monotone before → before 0 ≤ after 0

pub Later-refl : (c : ℕ → ℕ) → Later c c
Later-refl c = record { monotone = λ m. m; le = λ m. omega arith }

pub Later-trans : {a b c : ℕ → ℕ} → Later a b → Later b c → Later a c
Later-trans x y = record {
  monotone = λ m. y.monotone (x.monotone m);
  le = λ m. omega (arith, x.le m, y.le (x.monotone m));
}

pub Later-suc : (c : ℕ → ℕ) → Later c (λ n. c (suc n))
Later-suc c = record { monotone = λ m i. m (suc i); le = λ m. m 0 }

-- Requests only post.
pub record Keeps (s r : Scheduler) : Type 0 where
  pub callbacks : r.callbacks ≡ s.callbacks
  pub timer : r.timer ≡ s.timer
  pub timer_expires : r.timer_expires ≡ s.timer_expires
  pub called : r.called ≡ s.called
  pub later : Later s.clock r.clock

Later-schedule :
    (cb delay : ℕ) (make_handle : Bool) (s : Scheduler)
    → Later s.clock (schedule_callback cb delay make_handle s).1.clock
unfolding schedule_callback
Later-schedule cb delay true s = elim (Bool-cases (ltb 0 delay)) [
  | inl y ↦ rw y (Later-suc s.clock)
  | inr n ↦ rw n (Later-refl s.clock)
]
Later-schedule cb delay false s = elim (Bool-cases (ltb 0 delay)) [
  | inl y ↦ rw y (Later-suc s.clock)
  | inr n ↦ rw n (Later-refl s.clock)
]

cancel-clock : (h : ℕ) (s : Scheduler) → (cancel_handle h s).clock ≡ s.clock
unfolding cancel_handle
cancel-clock h s = ground arith

pub perform-Keeps : (r : Request) (s : Scheduler) → Keeps s (perform r s)
unfolding perform schedule_callback cancel_handle
perform-Keeps (Request.schedule cb delay make_handle) s = record {
  callbacks = ground arith;
  timer = ground arith;
  timer_expires = ground arith;
  called = ground arith;
  later = Later-schedule cb delay make_handle s;
}
perform-Keeps (Request.cancel h) s = record {
  callbacks = ground arith;
  timer = ground arith;
  timer_expires = ground arith;
  called = ground arith;
  later = subst (λ c. Later s.clock c) (sym (cancel-clock h s)) (Later-refl s.clock);
}

pub perform_all-Keeps : (rs : List Request) (s : Scheduler) → Keeps s (perform_all rs s)
unfolding perform_all
perform_all-Keeps [] s = record {
  callbacks = refl;
  timer = refl;
  timer_expires = refl;
  called = refl;
  later = Later-refl s.clock;
}
perform_all-Keeps (r ∷ rs) s =
    let a = perform-Keeps r s in
    let b = perform_all-Keeps rs (perform r s) in
    record {
      callbacks = b.callbacks ∙ a.callbacks;
      timer = b.timer ∙ a.timer;
      timer_expires = b.timer_expires ∙ a.timer_expires;
      called = b.called ∙ a.called;
      later = Later-trans a.later b.later;
    }

abbrev pub NoneDue : ℕ → List (ℕ × CancelOrCb) → Type 0
NoneDue now [] = Unit {0}
NoneDue now ((t, e) ∷ es) = now < t

module _ (effects : ℕ → Scheduler → List Request) where
  -- A node that leaves the map is called, and counted, if it has no handle.
  pub record CallSpec (e : CancelOrCb) (s r : Scheduler) : Type 0 where
    pub callbacks : r.callbacks ≡ s.callbacks
    pub timer : r.timer ≡ s.timer
    pub timer_expires : r.timer_expires ≡ s.timer_expires
    pub called : (cb : ℕ) → calls_of cb r.called ≡ calls_of cb s.called + calls_of cb (e ∷ [])
    pub later : Later s.clock r.clock

  call_lem : (cb : ℕ) (e : CancelOrCb) (s : Scheduler) → CallSpec e s (call effects cb e s)
  unfolding call
  call_lem cb e s =
      let s1 : Scheduler = record s { called = s.called ++ e ∷ [] } in
      let k = perform_all-Keeps (effects cb s) s1 in
      record {
        callbacks = k.callbacks;
        timer = k.timer;
        timer_expires = k.timer_expires;
        called = λ c. ap (calls_of c) k.called ∙ calls_of-append c s.called (e ∷ []);
        later = k.later;
      }

  node_lem : (e : CancelOrCb) (s : Scheduler) → CallSpec e s (call_node effects e s)
  unfolding call_node
  node_lem (CancelOrCb.callback cb) s = call_lem cb (CancelOrCb.callback cb) s
  node_lem (CancelOrCb.cancel_cb h cb) s = elim (Bool-cases (is_cancelled h s)) [
    | inl y ↦ rw y (record {
      callbacks = refl;
      timer = refl;
      timer_expires = refl;
      called = λ c. omega arith;
      later = Later-refl s.clock;
    })
    | inr n ↦
        let k =
          call_lem cb (CancelOrCb.cancel_cb h cb) (record s { cancelled = h ∷ s.cancelled }) in
        rw n (record {
          callbacks = k.callbacks;
          timer = k.timer;
          timer_expires = k.timer_expires;
          called = k.called;
          later = k.later;
        })
  ]

  -- What leaves the map, in order, and what stays.
  pub record ReadySpec (now : ℕ) (s : Scheduler) (r : ℕ × Scheduler) : Type 0 where
    pub removed : List (ℕ × CancelOrCb)
    pub split : s.callbacks ≡ removed ++ r.1.callbacks
    pub size : r.0 ≡ length removed
    pub due : All (λ p. p.0 ≤ now) removed
    pub none_due : NoneDue now r.1.callbacks
    pub timer : r.1.timer ≡ s.timer
    pub timer_expires : r.1.timer_expires ≡ s.timer_expires
    pub called :
        (cb : ℕ) → calls_of cb r.1.called ≡ calls_of cb s.called + times_scheduled cb removed
    pub later : Later s.clock r.1.clock

  pub loop_zero : (now : ℕ) (s : Scheduler) → call_loop effects zero now s ≡ (0, s)
  unfolding call_loop
  loop_zero now s = refl

  pub loop_stop :
      (fuel now : ℕ) (cs : List (ℕ × CancelOrCb)) (s : Scheduler)
      → NoneDue now cs
      → call_loop effects fuel now (record s { callbacks = cs }) ≡ (0, record s { callbacks = cs })
  unfolding call_loop
  loop_stop zero now cs s h = refl
  loop_stop (suc fuel) now [] s h = refl
  loop_stop (suc fuel) now ((t, e) ∷ rest) s h =
      let k : leb t now ≡ false = ground arith in rw (k, call_loop) refl

  pub loop_due :
      (fuel now t : ℕ) (e : CancelOrCb) (rest : List (ℕ × CancelOrCb)) (s : Scheduler)
      → t ≤ now
      → let r = call_loop effects fuel now (call_node effects e (record s { callbacks = rest })) in
        call_loop effects (suc fuel) now (record s { callbacks = (t, e) ∷ rest }) ≡ (suc r.0, r.1)
  unfolding call_loop
  loop_due fuel now t e rest s h = let k : leb t now ≡ true = ground arith in rw (k, call_loop) refl

  nothing_due : (now : ℕ) (s : Scheduler) → NoneDue now s.callbacks → ReadySpec now s (0, s)
  nothing_due now s h = record {
    removed = [];
    split = refl;
    size = refl;
    due = tt;
    none_due = h;
    timer = refl;
    timer_expires = refl;
    called = λ cb. omega arith;
    later = Later-refl s.clock;
  }

  loop_lem :
      (fuel now : ℕ) (cs : List (ℕ × CancelOrCb)) (s : Scheduler)
      → length cs ≤ fuel
      → ReadySpec now
          (record s { callbacks = cs })
          (call_loop effects fuel now (record s { callbacks = cs }))
  loop_lem fuel now [] s h =
      rw (loop_stop fuel now [] s tt) (nothing_due now (record s { callbacks = [] }) tt)
  loop_lem zero now ((t, e) ∷ rest) s h = absurd (omega arith)
  loop_lem (suc fuel) now ((t, e) ∷ rest) s h = elim (lt_or_le now t) [
    | inl lt ↦
        rw (loop_stop (suc fuel) now ((t, e) ∷ rest) s lt)
          (nothing_due now (record s { callbacks = (t, e) ∷ rest }) lt)
    | inr le ↦
        let s1 = call_node effects e (record s { callbacks = rest }) in
        let k = node_lem e (record s { callbacks = rest }) in
        let i = loop_lem fuel now s1.callbacks s1 (omega (arith, h, ap length k.callbacks)) in
        rw (loop_due fuel now t e rest s le) (record {
          removed = (t, e) ∷ i.removed;
          split = ap (λ l. (t, e) ∷ l) (sym k.callbacks ∙ i.split);
          size = ap suc i.size;
          due = (le, i.due);
          none_due = i.none_due;
          timer = i.timer ∙ k.timer;
          timer_expires = i.timer_expires ∙ k.timer_expires;
          called = λ cb. omega (arith, i.called cb, k.called cb, one_more cb t e i.removed);
          later = Later-trans k.later i.later;
        })
  ]
    where
      one_more :
          (cb t : ℕ) (e : CancelOrCb) (es : List (ℕ × CancelOrCb))
          → times_scheduled cb ((t, e) ∷ es) ≡ calls_of cb (e ∷ []) + times_scheduled cb es
      one_more cb t (CancelOrCb.callback c) es = omega arith
      one_more cb t (CancelOrCb.cancel_cb g c) es = omega arith

  pub call_ready_lem : (now : ℕ) (s : Scheduler) → ReadySpec now s (call_ready effects now s)
  unfolding call_ready
  call_ready_lem now s = loop_lem (length s.callbacks) now s.callbacks s (omega arith)
