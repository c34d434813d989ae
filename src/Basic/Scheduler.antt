-- ===== src/Basic/Scheduler.antt =====
-- include/libp2p/basic/scheduler.hpp, include/libp2p/basic/scheduler/scheduler_impl.hpp and
-- src/basic/scheduler/scheduler_impl.cpp: callbacks that are called at a time or later, with
-- src/basic/scheduler/manual_scheduler_backend.cpp for what the backend does with them. A callback
-- is the number that names it, and what it does to the scheduler is the parameter `effects`: the
-- calls of its interface that it makes. The backend's clock is the sequence of the times that it
-- will be read at. A CancelCb is the number of its handle. One thread is modelled, so an atomic
-- flag is a flag. A delay below zero does what zero does.
pub mod Order
pub mod Calls
pub mod Pulses
pub mod Handles
pub mod Timer
use cpp_libp2p.Base.{
  ℕ, zero, suc, ◌+◌, max, Bool, true, false, not, ◌&&◌, Option, none, some, List, [], ◌∷◌, ◌++◌,
  ltb, leb, ◌==◌, if◌then◌else◌, length, count,
}

-- SchedulerImpl::CancelOrCb: a callback, or one with a handle.
pub data CancelOrCb : Type 0 where
  cancel_cb : ℕ → ℕ → CancelOrCb
  callback : ℕ → CancelOrCb

-- What `scheduleImpl` and the handle post to the backend.
pub data Posted : Type 0 where
  emplace : ℕ → CancelOrCb → Posted
  erase : ℕ → Posted

-- What other code asks of the scheduler; the first argument of `schedule` names the callback.
pub data Request : Type 0 where
  schedule : ℕ → ℕ → Bool → Request
  cancel : ℕ → Request

-- The scheduler, and of its backend what is posted, the time of the timer and the clock. The
-- multimap `callbacks` is a list in the order of the time. `cancelled` holds the handles with their
-- flag set, `next_handle` numbers the handles, and `called` is a record of the calls.
pub record Scheduler : Type 0 where
  pub callbacks : List (ℕ × CancelOrCb)
  pub timer : ℕ
  pub cancelled : List ℕ
  pub next_handle : ℕ
  pub posted : List Posted
  pub timer_expires : Option ℕ
  pub clock : ℕ → ℕ
  pub called : List CancelOrCb

-- The constructor leaves `timer_` without a value.
abbrev pub new_scheduler : ℕ → (ℕ → ℕ) → Scheduler
new_scheduler timer clock = record {
  callbacks = [];
  timer = timer;
  cancelled = [];
  next_handle = 0;
  posted = [];
  timer_expires = none;
  clock = clock;
  called = [];
}

-- `backend_->now()`.
abbrev pub read_clock : Scheduler → Scheduler
read_clock s = record s { clock = λ n. s.clock (suc n) }

-- `emplace` of a multimap: behind the elements with the same key.
unfoldable pub emplace_at : ℕ → CancelOrCb → List (ℕ × CancelOrCb) → List (ℕ × CancelOrCb)
emplace_at t e [] = (t, e) ∷ []
emplace_at t e ((u, f) ∷ rest) =
    let rest' = emplace_at t e rest in if ltb t u then (t, e) ∷ (u, f) ∷ rest else (u, f) ∷ rest'

unfoldable pub is_cancelled : ℕ → Scheduler → Bool
is_cancelled h s = ltb 0 (count h s.cancelled)

abbrev pub post : Posted → Scheduler → Scheduler
post p s = record s { posted = s.posted ++ p ∷ [] }

-- `scheduleImpl` of a callback that is not empty: the handle, if one is made, and the scheduler.
unfoldable pub schedule_callback : ℕ → ℕ → Bool → Scheduler → Option ℕ × Scheduler
schedule_callback cb delay_from_now make_handle s =
    let abs = (if ltb 0 delay_from_now then s.clock 0 + delay_from_now else 0) in
    let s1 = (if ltb 0 delay_from_now then read_clock s else s) in
    if make_handle
    then (
      some s1.next_handle,
      post (emplace abs (cancel_cb s1.next_handle cb))
          (record s1 { next_handle = suc s1.next_handle }),
    )
    else (none, post (emplace abs (callback cb)) s1)

-- The outer `none` is the exception that an empty callback makes.
unfoldable pub schedule_impl : Option ℕ → ℕ → Bool → Scheduler → Option (Option ℕ × Scheduler)
unfolding schedule_callback
schedule_impl none delay_from_now make_handle s = none
schedule_impl (some cb) delay_from_now make_handle s =
    some (schedule_callback cb delay_from_now make_handle s)

-- The function of the handle. A CancelCb that is gone has its flag set.
unfoldable pub cancel_handle : ℕ → Scheduler → Scheduler
unfolding is_cancelled
cancel_handle h s =
    if is_cancelled h s then s else post (erase h) (record s { cancelled = h ∷ s.cancelled })

unfoldable pub perform : Request → Scheduler → Scheduler
unfolding schedule_callback cancel_handle
perform (schedule cb delay_from_now make_handle) s =
    (schedule_callback cb delay_from_now make_handle s).1
perform (cancel h) s = cancel_handle h s

unfoldable pub perform_all : List Request → Scheduler → Scheduler
unfolding perform
perform_all [] s = s
perform_all (r ∷ rs) s = perform_all rs (perform r s)

-- `callbacks_.erase(*cancel->it)`: the iterator is that of the handle's callback, which is gone from
-- the map when the CancelCb is.
unfoldable pub erase_handle : ℕ → List (ℕ × CancelOrCb) → List (ℕ × CancelOrCb)
erase_handle h [] = []
erase_handle h ((t, callback cb) ∷ rest) = (t, callback cb) ∷ erase_handle h rest
erase_handle h ((t, cancel_cb g cb) ∷ rest) =
    let rest' = erase_handle h rest in if h == g then rest' else (t, cancel_cb g cb) ∷ rest'

-- The end of `pulse`: the timer is set unless it is set to a time that will do.
unfoldable pub set_timer : ℕ → ℕ → ℕ → Scheduler → Scheduler
set_timer max_timer_threshold now least s =
    if ltb now s.timer && leb s.timer (least + max_timer_threshold) then s else record s {
      timer = max (now + max_timer_threshold) least;
      timer_expires = some (max (now + max_timer_threshold) least);
    }

pub data Event : Type 0 where
  request : Request → Event
  deferred : Event
  timer_fires : Event

module _ (effects : ℕ → Scheduler → List Request) where
  -- A call of a callback: it is recorded, and makes its requests.
  unfoldable pub call : ℕ → CancelOrCb → Scheduler → Scheduler
  unfolding perform_all
  call cb e s = perform_all (effects cb s) (record s { called = s.called ++ e ∷ [] })

  -- The body of the loop of `callReady`.
  unfoldable pub call_node : CancelOrCb → Scheduler → Scheduler
  unfolding call is_cancelled
  call_node (callback cb) s = call cb (callback cb) s
  call_node (cancel_cb h cb) s =
      if is_cancelled h s
      then s
      else call cb (cancel_cb h cb) (record s { cancelled = h ∷ s.cancelled })

  -- The loop of `callReady`, whose result counts the callbacks that it removes.
  unfoldable pub call_loop : ℕ → ℕ → Scheduler → ℕ × Scheduler
  call_loop zero now s = (0, s)
  call_loop (suc fuel) now s = elim s.callbacks [
    | [] ↦ (0, s)
    | (t, e) ∷ rest ↦ elim (leb t now) [
      | false ↦ (0, s)
      | true ↦
          let (removed, s1) = call_loop fuel now (call_node e (record s { callbacks = rest })) in
          (suc removed, s1)
    ]
  ]

  unfoldable pub call_ready : ℕ → Scheduler → ℕ × Scheduler
  unfolding call_loop
  call_ready now s = call_loop (length s.callbacks) now s

module _ (effects : ℕ → Scheduler → List Request) (max_timer_threshold : ℕ) where
  -- The loop of `pulse`.
  unfoldable pub pulse_loop : ℕ → Scheduler → Scheduler
  pulse_loop zero s = s
  pulse_loop (suc fuel) s = elim s.callbacks [
    | [] ↦ s
    | (least, e) ∷ rest ↦
        let (removed, s1) = call_ready effects (s.clock 0) (read_clock s) in
        elim removed [
          | suc n ↦ pulse_loop fuel s1
          | zero ↦ set_timer max_timer_threshold (s.clock 0) least s1
        ]
  ]

  -- A round that does not return removes a callback, and no callback is added meanwhile.
  unfoldable pub pulse : Scheduler → Scheduler
  pulse s = let s1 = (call_ready effects 0 s).1 in pulse_loop (suc (length s1.callbacks)) s1

  -- What is posted, when the backend calls it.
  unfoldable pub call_posted : Posted → Scheduler → Scheduler
  call_posted (emplace abs (callback cb)) s =
      pulse (record s { callbacks = emplace_at abs (callback cb) s.callbacks })
  call_posted (emplace abs (cancel_cb h cb)) s =
      if is_cancelled h s
      then s
      else pulse (record s { callbacks = emplace_at abs (cancel_cb h cb) s.callbacks })
  call_posted (erase h) s = record s { callbacks = erase_handle h s.callbacks }

  -- A round of the backend's loop over what is posted.
  unfoldable pub call_deferred : Scheduler → Scheduler
  call_deferred s = elim s.posted [ [] ↦ s | p ∷ rest ↦ call_posted p (record s { posted = rest }) ]

  -- The backend's timer.
  unfoldable pub fire_timer : Scheduler → Scheduler
  fire_timer s = elim s.timer_expires [
    | none ↦ s
    | some t ↦ if leb t (s.clock 0) then pulse (record s { timer_expires = none }) else s
  ]

  unfoldable pub step : Event → Scheduler → Scheduler
  step (request r) s = perform r s
  step deferred s = call_deferred s
  step timer_fires s = fire_timer s

  unfoldable pub run : List Event → Scheduler → Scheduler
  run [] s = s
  run (e ∷ es) s = run es (step e s)
