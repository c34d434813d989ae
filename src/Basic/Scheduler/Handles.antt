-- ===== src/Basic/Scheduler/Handles.antt =====
-- SchedulerImpl: a callback with a handle is called once at most, and not when it is cancelled.
pub mod Runs
use cpp_libp2p.Base.{
  ℕ, zero, suc, ◌+◌, ◌-◌, ◌≤◌, ◌≡◌, refl, ap, sym, subst, ◌∙◌, true, false, Bool, Bool-cases,
  Option, some, none, List, [], ◌∷◌, ◌++◌, arith, inl, inr, leb, count, one, one_other, one_self,
  ◌==◌, length, ltb, lt_or_le, zero_cases,
}
use cpp_libp2p.Basic.Scheduler.{
  Scheduler, CancelOrCb, Request, Posted, Event, is_cancelled, perform, perform_all,
  schedule_callback, cancel_handle, call, call_node, call_loop, call_ready, set_timer, pulse_loop,
  pulse, call_posted, call_deferred, fire_timer, step, run, new_scheduler, read_clock, emplace_at,
  erase_handle,
}
use cpp_libp2p.Basic.Scheduler.Calls.{loop_zero, loop_stop, loop_due}
use cpp_libp2p.Basic.Scheduler.Pulses.Rounds.{round_more, round_last, loop_done, no_fuel}

-- How many calls of the callback of the handle `h` are recorded.
abbrev pub handle_calls : ℕ → List CancelOrCb → ℕ
handle_calls h [] = 0
handle_calls h (CancelOrCb.callback c ∷ es) = handle_calls h es
handle_calls h (CancelOrCb.cancel_cb g c ∷ es) = one h g + handle_calls h es

pub handle_calls-append :
    (h : ℕ) (xs ys : List CancelOrCb)
    → handle_calls h (xs ++ ys) ≡ handle_calls h xs + handle_calls h ys
handle_calls-append h [] ys = omega arith
handle_calls-append h (CancelOrCb.callback c ∷ xs) ys = omega (arith, handle_calls-append h xs ys)
handle_calls-append h (CancelOrCb.cancel_cb g c ∷ xs) ys =
    omega (arith, handle_calls-append h xs ys)

-- The calls that are left to the handle: none with its flag set.
abbrev pub budget : ℕ → Scheduler → ℕ
budget h s = 1 - count h s.cancelled

-- From `s` to `r` the handle uses up what it is left, and gets nothing.
pub record Guarded (h : ℕ) (s r : Scheduler) : Type 0 where
  pub calls : handle_calls h r.called + budget h r ≤ handle_calls h s.called + budget h s
  pub budget_le : budget h r ≤ budget h s
  pub more : handle_calls h s.called ≤ handle_calls h r.called

pub Guarded-trans : {h : ℕ} {s r q : Scheduler} → Guarded h s r → Guarded h r q → Guarded h s q
Guarded-trans a b = record {
  calls = omega (arith, a.calls, b.calls);
  budget_le = omega (arith, a.budget_le, b.budget_le);
  more = omega (arith, a.more, b.more);
}

pub Guarded-same :
    {h : ℕ} (s r : Scheduler) → r.cancelled ≡ s.cancelled → r.called ≡ s.called → Guarded h s r
Guarded-same {h} s r e k = record {
  calls = omega (arith, ap (count h) e, ap (handle_calls h) k);
  budget_le = omega (arith, ap (count h) e);
  more = omega (arith, ap (handle_calls h) k);
}

Guarded-flag :
    {h : ℕ} (g : ℕ) (s r : Scheduler)
    → r.cancelled ≡ g ∷ s.cancelled
    → r.called ≡ s.called
    → Guarded h s r
Guarded-flag {h} g s r e k = record {
  calls = omega (arith, ap (count h) e, ap (handle_calls h) k);
  budget_le = omega (arith, ap (count h) e);
  more = omega (arith, ap (handle_calls h) k);
}

schedule-cancelled :
    (cb delay : ℕ) (m : Bool) (s : Scheduler)
    → (schedule_callback cb delay m s).1.cancelled ≡ s.cancelled
unfolding schedule_callback
schedule-cancelled cb delay m s = ground arith

schedule-called :
    (cb delay : ℕ) (m : Bool) (s : Scheduler) → (schedule_callback cb delay m s).1.called ≡ s.called
unfolding schedule_callback
schedule-called cb delay m s = ground arith

cancel-Guarded : (h g : ℕ) (s : Scheduler) → Guarded h s (cancel_handle g s)
unfolding cancel_handle
cancel-Guarded h g s = elim (Bool-cases (is_cancelled g s)) [
  | inl y ↦ rw y (Guarded-same s s refl refl)
  | inr n ↦ rw n (
      Guarded-flag g s
        (record s { cancelled = g ∷ s.cancelled; posted = s.posted ++ Posted.erase g ∷ [] }) refl
        refl)
]

pub perform-Guarded : (h : ℕ) (r : Request) (s : Scheduler) → Guarded h s (perform r s)
unfolding perform
perform-Guarded h (Request.schedule cb delay make_handle) s =
    Guarded-same s (schedule_callback cb delay make_handle s).1
      (schedule-cancelled cb delay make_handle s) (schedule-called cb delay make_handle s)
perform-Guarded h (Request.cancel g) s = cancel-Guarded h g s

pub perform_all-Guarded :
    (h : ℕ) (rs : List Request) (s : Scheduler) → Guarded h s (perform_all rs s)
unfolding perform_all
perform_all-Guarded h [] s = Guarded-same s s refl refl
perform_all-Guarded h (r ∷ rs) s =
    Guarded-trans (perform-Guarded h r s) (perform_all-Guarded h rs (perform r s))

unflagged : (g : ℕ) (s : Scheduler) → is_cancelled g s ≡ false → count g s.cancelled ≡ 0
unfolding is_cancelled
unflagged g s n = ground arith

pub flagged : (g : ℕ) (s : Scheduler) → is_cancelled g s ≡ true → 1 ≤ count g s.cancelled
unfolding is_cancelled
flagged g s y = ground arith

pub cancel_flags : (g : ℕ) (s : Scheduler) → is_cancelled g (cancel_handle g s) ≡ true
unfolding is_cancelled cancel_handle
cancel_flags g s = elim (Bool-cases (ltb 0 (count g s.cancelled))) [
  | inl y ↦ rw y y
  | inr n ↦ rw n (let e = one_self g in ground arith)
]

-- The flag is set, and the call recorded.
pub call-Guarded :
    (h g cb : ℕ) (s : Scheduler)
    → is_cancelled g s ≡ false
    → Guarded h s (record s {
      cancelled = g ∷ s.cancelled;
      called = s.called ++ CancelOrCb.cancel_cb g cb ∷ [];
    })
call-Guarded h g cb s n =
    let more = handle_calls-append h s.called (CancelOrCb.cancel_cb g cb ∷ []) in
    elim (Bool-cases (h == g)) [
      | inl y ↦
          let eq : h ≡ g = ground arith in
          let none_yet : count h s.cancelled ≡ 0 =
            ap (λ k. count k s.cancelled) eq ∙ unflagged g s n in
          let now : one h g ≡ 1 = ap (λ k. one k g) eq ∙ one_self g in
          record {
            calls = omega (arith, none_yet, now, more);
            budget_le = omega arith;
            more = omega (arith, more);
          }
      | inr k ↦ record {
        calls = omega (arith, one_other h g k, more);
        budget_le = omega arith;
        more = omega (arith, more);
      }
    ]

set_timer-cancelled :
    (threshold now least : ℕ) (s : Scheduler)
    → (set_timer threshold now least s).cancelled ≡ s.cancelled
unfolding set_timer
set_timer-cancelled threshold now least s = ground arith

set_timer-called :
    (threshold now least : ℕ) (s : Scheduler) → (set_timer threshold now least s).called ≡ s.called
unfolding set_timer
set_timer-called threshold now least s = ground arith

pub set_timer-Guarded :
    (h threshold now least : ℕ) (s : Scheduler) → Guarded h s (set_timer threshold now least s)
set_timer-Guarded h threshold now least s =
    Guarded-same s (set_timer threshold now least s) (set_timer-cancelled threshold now least s)
      (set_timer-called threshold now least s)
