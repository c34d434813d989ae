-- ===== src/Tests/Streams.antt =====
-- The streams of yamux.
use cpp_libp2p.Base.{ℕ, ◌≡◌, ◌≤◌, refl, ap, true, false, some, List, [], ◌∷◌, arith}
use cpp_libp2p.Muxer.Yamux.Stream.{
  YamuxStream, Call, new_yamux_stream, do_write_some, do_close_write, data_received, fin_received,
  data_written, step, run, write_loop, do_close, stream_reset_by_peer, write_stream_data,
  on_data_received, do_write, finish_write, write_some,
}
use cpp_libp2p.Muxer.Yamux.Stream.Events.{fins, written, late}
use cpp_libp2p.Muxer.Yamux.Stream.Valid
use cpp_libp2p.Muxer.Yamux.Stream.Writing
use cpp_libp2p.Muxer.Yamux.Stream.Steps
use cpp_libp2p.Muxer.Yamux.Stream.Runs
use cpp_libp2p.Muxer.Yamux.Stream.Delivery
use cpp_libp2p.Muxer.Yamux.Stream.Delivery.{wanted}
use cpp_libp2p.Muxer.Yamux.Stream.Fins
use cpp_libp2p.Muxer.Yamux.Stream.Closing.{waiting_calls}
use cpp_libp2p.Basic.WriteQueue.Valid as QueueValid
use cpp_libp2p.Basic.WriteQueue.Fifo.{pending}
use cpp_libp2p.Basic.WriteQueue.{enqueue, dequeue, can_enqueue, callbacks}

abbrev message : List ℕ
message = 1 ∷ 2 ∷ 3 ∷ []

abbrev stream : YamuxStream
stream = new_yamux_stream 1048576 67108864

stream-IsValid : Valid.IsValid stream
stream-IsValid = Valid.new_yamux_stream-IsValid 1048576 67108864 (omega arith)

write_step : (step (do_write_some message 7) stream).0 ≡ write_stream_data (1 ∷ 2 ∷ 3 ∷ []) ∷ []
unfolding step write_some do_write write_loop finish_write new_yamux_stream enqueue dequeue
    can_enqueue
write_step = refl

new_yamux_stream-IsValid_example : Valid.IsValid (new_yamux_stream 1048576 67108864)
new_yamux_stream-IsValid_example = Valid.new_yamux_stream-IsValid 1048576 67108864 (omega arith)

step_lem_example : Steps.StepSpec (7 ∷ []) [] stream (step (do_write_some message 7) stream)
step_lem_example = Runs.step_lem (do_write_some message 7) stream stream-IsValid

abbrev a_session : List Call
a_session =
    do_write_some message 7
    ∷ do_close_write (some 8)
    ∷ data_received message
    ∷ data_written 3
    ∷ fin_received
    ∷ []

run-fin_example :
    (fins (run a_session stream).0 ≤ 1)
    × (late (run a_session stream).0 ≡ [])
    × (stream.fin_sent ≡ true
        → (fins (run a_session stream).0 ≡ 0) × (written (run a_session stream).0 ≡ []))
    × Valid.IsValid (run a_session stream).1
run-fin_example = Runs.run-fin a_session stream stream-IsValid

write_loop_lem_example : Writing.LoopSpec stream (write_loop 1 stream)
unfolding new_yamux_stream
write_loop_lem_example = Writing.write_loop_lem 1 stream refl stream-IsValid.queue (omega arith)

-- A message is queued, a callback waits for the FIN frame, and a reader waits.
abbrev busy_stream : YamuxStream
busy_stream = record (new_yamux_stream 1048576 67108864) {
  write_queue = enqueue message (some 7) stream.write_queue;
  close_cb = some 8;
  is_writable = false;
  reading = some (record { out = 4; cb = 9 });
}

busy_stream-IsValid : Valid.IsValid busy_stream
unfolding new_yamux_stream
busy_stream-IsValid = record {
  queue =
      QueueValid.enqueue-IsValid message (some 7) stream.write_queue (omega arith) (omega arith)
        stream-IsValid.queue;
  buffer = stream-IsValid.buffer;
  closed = λ e h. cc;
  waiting = λ p h.
      let out = ap (λ o. wanted o) h in
      record { nothing_read = refl; readable = refl; room = omega (arith, out) };
  within = λ _. omega arith;
  bound = omega arith;
  finished = λ h. cc;
}

do_close_lem_example :
    Steps.CloseSpec stream_reset_by_peer busy_stream (do_close stream_reset_by_peer busy_stream)
do_close_lem_example = Steps.do_close_lem stream_reset_by_peer busy_stream busy_stream-IsValid

-- Three callbacks wait, and three bytes are to be sent.
busy_stream_waits :
    (waiting_calls busy_stream ≡ 7 ∷ 8 ∷ 9 ∷ []) × (pending busy_stream.write_queue.queue ≡ message)
unfolding new_yamux_stream enqueue callbacks
busy_stream_waits = (refl, refl)

on_data_received_lem_example : Delivery.DeliverSpec message stream (on_data_received message stream)
unfolding new_yamux_stream
on_data_received_lem_example =
    Delivery.on_data_received_lem message stream stream-IsValid refl (omega arith) (omega arith)
