-- ===== src/Tests/Schedulers.antt =====
-- The scheduler.
use cpp_libp2p.Base.{
  ℕ, ◌+◌, ◌≡◌, ◌≤◌, refl, true, false, none, List, [], ◌∷◌, arith, ◌==◌, if◌then◌else◌,
}
use cpp_libp2p.Basic.Scheduler.{
  Scheduler, CancelOrCb, Request, Event, new_scheduler, run, pulse, fire_timer, call_node,
  call_loop, call_ready, set_timer, pulse_loop, call_posted, call_deferred, step, emplace_at,
  is_cancelled, erase_handle, perform, perform_all, schedule_callback, cancel_handle, call,
}
use cpp_libp2p.Basic.Scheduler.Handles
use cpp_libp2p.Basic.Scheduler.Handles.Runs
use cpp_libp2p.Basic.Scheduler.Timer
use cpp_libp2p.Basic.Scheduler.Pulses
use cpp_libp2p.Basic.Scheduler.Pulses.Rounds
use cpp_libp2p.Basic.Scheduler.Order
use cpp_libp2p.Basic.Scheduler.Calls

-- The callback 1 cancels the handle 0 and schedules the callback 2; the others do nothing.
effects : ℕ → Scheduler → List Request
effects cb s = if cb == 1 then Request.cancel 0 ∷ Request.schedule 2 5 false ∷ [] else []

abbrev clock : ℕ → ℕ
clock n = 100 + n

clock-Monotone : Calls.Monotone clock
clock-Monotone i = omega arith

-- The callback 1 runs before the callback 3, which it cancels.
abbrev events : List Event
events =
    Event.request (Request.schedule 3 20 true)
    ∷ Event.request (Request.schedule 1 0 false)
    ∷ Event.deferred
    ∷ Event.deferred
    ∷ []

abbrev scheduler : Scheduler
scheduler = run effects 10 events (new_scheduler 0 clock)

one_is_called : scheduler.called ≡ CancelOrCb.callback 1 ∷ []
unfolding run step perform perform_all schedule_callback cancel_handle call_deferred call_posted
    pulse pulse_loop set_timer call_ready call_loop call_node call emplace_at is_cancelled
    erase_handle effects
one_is_called = refl

scheduler-IsReady : Timer.IsReady 10 scheduler
scheduler-IsReady =
    Timer.run-IsReady effects 10 events (new_scheduler 0 clock)
      (Timer.new_scheduler-IsReady 10 0 clock clock-Monotone (omega arith))

run-IsReady_example : Timer.IsReady 10 (run effects 10 events (new_scheduler 0 clock))
run-IsReady_example =
    Timer.run-IsReady effects 10 events (new_scheduler 0 clock)
      (Timer.new_scheduler-IsReady 10 0 clock clock-Monotone (omega arith))

fire_timer_lem_example : Timer.FireSpec effects 10 scheduler (fire_timer effects 10 scheduler)
fire_timer_lem_example = Timer.fire_timer_lem effects 10 scheduler scheduler-IsReady

pulse_lem_example : Pulses.PulseSpec 10 scheduler (pulse effects 10 scheduler)
pulse_lem_example =
    Rounds.pulse_lem effects 10 scheduler scheduler-IsReady.sorted scheduler-IsReady.monotone
      scheduler-IsReady.timer_known

emplace_at_lem_example :
    Order.EmplaceSpec 5
      (CancelOrCb.callback 7)
      ((5, CancelOrCb.callback 1) ∷ (6, CancelOrCb.callback 2) ∷ [])
      (emplace_at 5
        (CancelOrCb.callback 7)
        ((5, CancelOrCb.callback 1) ∷ (6, CancelOrCb.callback 2) ∷ []))
emplace_at_lem_example =
    Order.emplace_at_lem 5 (CancelOrCb.callback 7)
      ((5, CancelOrCb.callback 1) ∷ (6, CancelOrCb.callback 2) ∷ []) ((omega arith, tt), (tt, tt))

run-handle_calls_example :
    (Handles.handle_calls 0 (run effects 10 events scheduler).called ≤ 1)
    × (is_cancelled 0 scheduler ≡ true
        → Handles.handle_calls 0 (run effects 10 events scheduler).called
          ≡ Handles.handle_calls 0 scheduler.called)
    × (Handles.handle_calls 0 scheduler.called ≡ 1
        → Handles.handle_calls 0 (run effects 10 events scheduler).called ≡ 1)
    × (is_cancelled 0 (cancel_handle 0 scheduler) ≡ true)
run-handle_calls_example = Runs.run-handle_calls effects 10 0 0 clock events events

-- With the value 105 in `timer_` when the scheduler is made, at the time 100, a callback that is to
-- be called at 103 waits with no timer set.
abbrev stalled : Scheduler
stalled =
    run effects 10 (Event.request (Request.schedule 4 3 false) ∷ Event.deferred ∷ [])
      (new_scheduler 105 clock)

stalled_waits :
    (stalled.timer_expires ≡ none) × (stalled.callbacks ≡ (103, CancelOrCb.callback 4) ∷ [])
unfolding run step perform schedule_callback call_deferred call_posted pulse pulse_loop set_timer
    call_ready call_loop call_node emplace_at
stalled_waits = (refl, refl)
