-- ===== src/Muxer/Yamux/Stream/Closing.antt =====
-- YamuxStream::doClose: the stream gives up its buffers and calls every callback that waits.
use cpp_libp2p.Base.{
  ℕ, ◌≤◌, ◌≡◌, refl, ap, false, Option, none, some, List, [], ◌∷◌, ◌++◌, arith, All, All-append,
}
use cpp_libp2p.Basic.WriteQueue.{callbacks, get_all_callbacks, clear}
use cpp_libp2p.Basic.WriteQueue.Acks.{clear-IsValid}
use cpp_libp2p.Basic.ReadBuffer.{clear_buffer}
use cpp_libp2p.Basic.ReadBuffer.Valid as BufferValid
use cpp_libp2p.Basic.ReadBuffer.AddConsume.{clear_buffer-IsValid}
use cpp_libp2p.Muxer.Yamux.Stream.{
  YamuxStream, Error, Event, call, Outcome, Pending, failure, call_set, call_all, close_result,
  finally_reading, do_close,
}
use cpp_libp2p.Muxer.Yamux.Stream.Events.{finished, finished-append}
use cpp_libp2p.Muxer.Yamux.Stream.Valid.{IsValid}

abbrev pub of_reading : Option Pending → List ℕ
of_reading none = []
of_reading (some p) = p.cb ∷ []

abbrev pub of_set : Option ℕ → List ℕ
of_set none = []
of_set (some c) = c ∷ []

-- The callbacks that a stream still has to call.
abbrev pub waiting_calls : YamuxStream → List ℕ
waiting_calls s =
    callbacks s.write_queue.queue
    ++ of_set s.window_size_cb
    ++ of_set s.close_cb
    ++ of_reading s.reading

finished-call_all : (cs : List ℕ) (e : Error) → finished (call_all cs e) ≡ cs
finished-call_all [] e = refl
finished-call_all (c ∷ cs) e = ap (◌∷◌ c) (finished-call_all cs e)

finished-call_set : (c : Option ℕ) (r : Outcome) → finished (call_set c r) ≡ of_set c
finished-call_set none r = refl
finished-call_set (some c) r = refl

pub finished-finally_reading :
    (p : Option Pending) (r : Outcome) → finished (finally_reading p r) ≡ of_reading p
finished-finally_reading none r = refl
finished-finally_reading (some p) r = refl

-- The stream after `doClose`.
abbrev pub closed_stream : Error → YamuxStream → YamuxStream
closed_stream ec s = record s {
  close_reason = some ec;
  is_readable = false;
  is_writable = false;
  write_queue = clear s.write_queue;
  internal_read_buffer = clear_buffer s.internal_read_buffer;
  reading = none;
  window_size_cb = none;
  close_cb = none;
}

abbrev pub close_events : Error → YamuxStream → List Event
close_events ec s =
    call_all (callbacks s.write_queue.queue) ec
    ++ call_set s.window_size_cb (failure ec)
    ++ call_set s.close_cb (close_result ec)
    ++ finally_reading s.reading (failure ec)

pub close_open :
    (ec : Error) (s : YamuxStream)
    → s.close_reason ≡ none
    → do_close ec s ≡ (close_events ec s, closed_stream ec s)
unfolding do_close get_all_callbacks
close_open ec s e = ground arith

pub calls-close_events :
    (ec : Error) (s : YamuxStream) → finished (close_events ec s) ≡ waiting_calls s
calls-close_events ec s =
    simp (finished-append, finished-call_all, finished-call_set, finished-finally_reading)

-- A callback is called, and nothing goes to the connection.
abbrev pub IsCall : Event → Type 0
IsCall (call c r) = Unit {0}
IsCall _ = ⊥

calls_only-call_all : (cs : List ℕ) (e : Error) → All IsCall (call_all cs e)
calls_only-call_all [] e = tt
calls_only-call_all (c ∷ cs) e = (tt, calls_only-call_all cs e)

calls_only-call_set : (c : Option ℕ) (r : Outcome) → All IsCall (call_set c r)
calls_only-call_set none r = tt
calls_only-call_set (some c) r = (tt, tt)

calls_only-reading : (p : Option Pending) (r : Outcome) → All IsCall (finally_reading p r)
calls_only-reading none r = tt
calls_only-reading (some p) r = (tt, tt)

pub calls_only : (ec : Error) (s : YamuxStream) → All IsCall (close_events ec s)
calls_only ec s =
    let writers = call_all (callbacks s.write_queue.queue) ec in
    let window = call_set s.window_size_cb (failure ec) in
    let closer = call_set s.close_cb (close_result ec) in
    let reader = finally_reading s.reading (failure ec) in
    All-append IsCall (writers ++ window ++ closer) reader
      (All-append IsCall (writers ++ window) closer
        (All-append IsCall writers window (calls_only-call_all (callbacks s.write_queue.queue) ec)
          (calls_only-call_set s.window_size_cb (failure ec)))
        (calls_only-call_set s.close_cb (close_result ec)))
      (calls_only-reading s.reading (failure ec))

pub close_twice :
    (ec e : Error) (s : YamuxStream)
    → s.close_reason ≡ some e
    → do_close ec s ≡ (finally_reading s.reading (failure ec), record s { reading = none })
unfolding do_close
close_twice ec e s h = ground arith

pub closed_stream-IsValid :
    (ec : Error) (s : YamuxStream)
    → BufferValid.IsValid s.internal_read_buffer
    → s.peers_window_size ≤ s.maximum_window_size
    → IsValid (closed_stream ec s)
unfolding clear clear_buffer
closed_stream-IsValid ec s vb le = record {
  queue = clear-IsValid s.write_queue;
  buffer = clear_buffer-IsValid s.internal_read_buffer vb;
  closed = λ e h. record {
    not_readable = refl;
    not_writable = refl;
    no_reading = refl;
    no_messages = refl;
    no_unsent = refl;
    no_close_cb = refl;
  };
  waiting = λ p h. cc;
  within = λ h. cc;
  bound = le;
  finished = λ h. record { not_writable = refl; no_unsent = refl };
}
