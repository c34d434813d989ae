-- ===== src/Muxer/Yamux/Connection/Told.antt =====
-- What the loops of YamuxedConnection::close add to the log.
use cpp_libp2p.Base.{
  ℕ, ◌≡◌, refl, sym, ap, ◌∙◌, inl, inr, Option, Option-cases, none, some, List, [], ◌∷◌, ◌++◌,
  append-nil, append_assoc, All, All-append,
}
use cpp_libp2p.Basic.WriteQueue.{callbacks}
use cpp_libp2p.Muxer.Yamux.Stream
use cpp_libp2p.Muxer.Yamux.Stream.{
  YamuxStream, Pending, Outcome, write_stream_data, ack_received_bytes, reset_stream, stream_closed,
  defer_call, call, copy_out, abort, do_close, call_all, call_set, finally_reading, failure,
  close_result,
}
use cpp_libp2p.Muxer.Yamux.Stream.Closing.{
  close_events, close_open, close_twice, waiting_calls, calls-close_events,
}
use cpp_libp2p.Muxer.Yamux.Stream.Events.{finished}
use cpp_libp2p.Muxer.Yamux.Connection.{
  YamuxedConnection, ConnectionError, Event, raw_write, raw_read, raw_close, stream_event,
  handler_stream, handler_error, deferred_error, closed_callback, schedule_expire, schedule_cleanup,
  schedule_ping, emit, feedback, feedbacks, close_streams, fail_pending,
}

abbrev IsCall : Stream.Event → Type 0
IsCall (call cb r) = Unit {0}
IsCall _ = ⊥

calls-call_all : (cs : List ℕ) (e : Stream.Error) → All IsCall (call_all cs e)
calls-call_all [] e = tt
calls-call_all (c ∷ cs) e = (tt, calls-call_all cs e)

calls-call_set : (c : Option ℕ) (r : Outcome) → All IsCall (call_set c r)
calls-call_set none r = tt
calls-call_set (some c) r = (tt, tt)

calls-finally : (p : Option Pending) (r : Outcome) → All IsCall (finally_reading p r)
calls-finally none r = tt
calls-finally (some p) r = (tt, tt)

calls-close_list : (e : Stream.Error) (s : YamuxStream) → All IsCall (close_events e s)
calls-close_list e s =
    All-append IsCall _ _
      (All-append IsCall _ _
        (All-append IsCall _ _ (calls-call_all (callbacks s.write_queue.queue) e)
          (calls-call_set s.window_size_cb (failure e)))
        (calls-call_set s.close_cb (close_result e)))
      (calls-finally s.reading (failure e))

calls-do_close : (e : Stream.Error) (s : YamuxStream) → All IsCall (do_close e s).0
calls-do_close e s = elim (Option-cases s.close_reason) [
  | inl h ↦ rw (close_open e s h) (calls-close_list e s)
  | inr (old, h) ↦ rw (close_twice e old s h) (calls-finally s.reading (failure e))
]

abbrev of_stream_events : ℕ → List Stream.Event → List Event
of_stream_events id [] = []
of_stream_events id (e ∷ es) = stream_event id e ∷ of_stream_events id es

-- The connection with more in its log.
abbrev pub logged : List Event → YamuxedConnection → YamuxedConnection
logged es c = record c { log = c.log ++ es }

logged-nil : (c : YamuxedConnection) → c ≡ logged [] c
logged-nil c = ap (λ l. record c { log = l }) (sym (append-nil c.log))

logged-logged :
    (xs ys : List Event) (c : YamuxedConnection) → logged ys (logged xs c) ≡ logged (xs ++ ys) c
logged-logged xs ys c = ap (λ l. record c { log = l }) (append_assoc c.log xs ys)

feedbacks-calls :
    (id : ℕ) (es : List Stream.Event) (c : YamuxedConnection)
    → All IsCall es
    → feedbacks id es c ≡ logged (of_stream_events id es) c
unfolding feedbacks feedback
feedbacks-calls id [] c h = logged-nil c
feedbacks-calls id (call cb r ∷ es) c h =
    feedbacks-calls id es (emit (stream_event id (call cb r)) c) h.1
    ∙ logged-logged (stream_event id (call cb r) ∷ []) (of_stream_events id es) c
feedbacks-calls id (write_stream_data bs ∷ es) c h = absurd h.0
feedbacks-calls id (ack_received_bytes n ∷ es) c h = absurd h.0
feedbacks-calls id (reset_stream ∷ es) c h = absurd h.0
feedbacks-calls id (stream_closed ∷ es) c h = absurd h.0
feedbacks-calls id (defer_call cb r ∷ es) c h = absurd h.0
feedbacks-calls id (copy_out bs ∷ es) c h = absurd h.0
feedbacks-calls id (abort ∷ es) c h = absurd h.0

abbrev pub streams_log : Stream.Error → List (ℕ × YamuxStream) → List Event
streams_log e [] = []
streams_log e ((id, s) ∷ m) = of_stream_events id (do_close e s).0 ++ streams_log e m

pub close_streams-logged :
    (e : Stream.Error) (m : List (ℕ × YamuxStream)) (c : YamuxedConnection)
    → close_streams e m c ≡ logged (streams_log e m) c
unfolding close_streams
close_streams-logged e [] c = logged-nil c
close_streams-logged e ((id, s) ∷ m) c =
    close_streams-logged e m (feedbacks id (do_close e s).0 c)
    ∙ ap (logged (streams_log e m)) (feedbacks-calls id (do_close e s).0 c (calls-do_close e s))
    ∙ logged-logged (of_stream_events id (do_close e s).0) (streams_log e m) c

abbrev pub handlers_log : ConnectionError → List (ℕ × ℕ) → List Event
handlers_log e [] = []
handlers_log e ((id, cb) ∷ m) = handler_error cb e ∷ handlers_log e m

pub fail_pending-logged :
    (e : ConnectionError) (m : List (ℕ × ℕ)) (c : YamuxedConnection)
    → fail_pending e m c ≡ logged (handlers_log e m) c
unfolding fail_pending
fail_pending-logged e [] c = logged-nil c
fail_pending-logged e ((id, cb) ∷ m) c =
    fail_pending-logged e m (emit (handler_error cb e) c)
    ∙ logged-logged (handler_error cb e ∷ []) (handlers_log e m) c

-- The callbacks of streams and the handlers that a log has called with the end of their wait.
abbrev pub told : List Event → List ℕ
told [] = []
told (stream_event id (call cb r) ∷ es) = cb ∷ told es
told (handler_error cb e ∷ es) = cb ∷ told es
told (_ ∷ es) = told es

pub told-append : (xs ys : List Event) → told (xs ++ ys) ≡ told xs ++ told ys
told-append [] ys = refl
told-append (stream_event id (call cb r) ∷ xs) ys = ap (◌∷◌ cb) (told-append xs ys)
told-append (stream_event id (write_stream_data bs) ∷ xs) ys = told-append xs ys
told-append (stream_event id (ack_received_bytes n) ∷ xs) ys = told-append xs ys
told-append (stream_event id reset_stream ∷ xs) ys = told-append xs ys
told-append (stream_event id stream_closed ∷ xs) ys = told-append xs ys
told-append (stream_event id (defer_call cb r) ∷ xs) ys = told-append xs ys
told-append (stream_event id (copy_out bs) ∷ xs) ys = told-append xs ys
told-append (stream_event id abort ∷ xs) ys = told-append xs ys
told-append (handler_error cb e ∷ xs) ys = ap (◌∷◌ cb) (told-append xs ys)
told-append (raw_write item ∷ xs) ys = told-append xs ys
told-append (raw_read ∷ xs) ys = told-append xs ys
told-append (raw_close ∷ xs) ys = told-append xs ys
told-append (handler_stream cb id ∷ xs) ys = told-append xs ys
told-append (deferred_error cb e ∷ xs) ys = told-append xs ys
told-append (closed_callback ∷ xs) ys = told-append xs ys
told-append (schedule_expire ∷ xs) ys = told-append xs ys
told-append (schedule_cleanup ∷ xs) ys = told-append xs ys
told-append (schedule_ping ∷ xs) ys = told-append xs ys

-- The callbacks that the streams still have to call, and the handlers that wait.
abbrev pub all_waiting : List (ℕ × YamuxStream) → List ℕ
all_waiting [] = []
all_waiting ((id, s) ∷ m) = waiting_calls s ++ all_waiting m

abbrev pub handlers : List (ℕ × ℕ) → List ℕ
handlers [] = []
handlers ((id, cb) ∷ m) = cb ∷ handlers m

abbrev pub AllOpen : List (ℕ × YamuxStream) → Type 0
AllOpen [] = Unit {0}
AllOpen ((id, s) ∷ m) = (s.close_reason ≡ none) × AllOpen m

told-of_stream_events :
    (id : ℕ) (es : List Stream.Event) → All IsCall es → told (of_stream_events id es) ≡ finished es
told-of_stream_events id [] h = refl
told-of_stream_events id (call cb r ∷ es) h = ap (◌∷◌ cb) (told-of_stream_events id es h.1)
told-of_stream_events id (write_stream_data bs ∷ es) h = absurd h.0
told-of_stream_events id (ack_received_bytes n ∷ es) h = absurd h.0
told-of_stream_events id (reset_stream ∷ es) h = absurd h.0
told-of_stream_events id (stream_closed ∷ es) h = absurd h.0
told-of_stream_events id (defer_call cb r ∷ es) h = absurd h.0
told-of_stream_events id (copy_out bs ∷ es) h = absurd h.0
told-of_stream_events id (abort ∷ es) h = absurd h.0

pub told-streams_log :
    (e : Stream.Error) (m : List (ℕ × YamuxStream))
    → AllOpen m
    → told (streams_log e m) ≡ all_waiting m
told-streams_log e [] h = refl
told-streams_log e ((id, s) ∷ m) h =
    told-append (of_stream_events id (do_close e s).0) (streams_log e m)
    ∙ ap (λ l. l ++ told (streams_log e m))
        (told-of_stream_events id (do_close e s).0 (calls-do_close e s) ∙ finished_open)
    ∙ ap (◌++◌ (waiting_calls s)) (told-streams_log e m h.1)
  where
    finished_open : finished (do_close e s).0 ≡ waiting_calls s
    finished_open = ap (λ r. finished r.0) (close_open e s h.0) ∙ calls-close_events e s

pub told-handlers_log :
    (e : ConnectionError) (m : List (ℕ × ℕ)) → told (handlers_log e m) ≡ handlers m
told-handlers_log e [] = refl
told-handlers_log e ((id, cb) ∷ m) = ap (◌∷◌ cb) (told-handlers_log e m)
