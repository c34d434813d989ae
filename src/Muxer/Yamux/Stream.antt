-- ===== src/Muxer/Yamux/Stream.antt =====
-- include/libp2p/muxer/yamux/yamux_stream.hpp and src/muxer/yamux/yamux_stream.cpp: one stream of a
-- yamux connection. What a method does outside of the stream is the list of its events, in order:
-- the calls of the connection (YamuxStreamFeedback), the copies into the span of a reader, and the
-- calls of callbacks. The callbacks and the connection do not call the stream back meanwhile. A
-- span that a reader gives is its size. Log lines are left out.
pub mod Events
pub mod Valid
pub mod Writing
pub mod Closing
pub mod Steps
pub mod Writes
pub mod Queueing
pub mod Acking
pub mod Reads
pub mod Receiving
pub mod Readers
pub mod Runs
pub mod Delivery
pub mod Fins
use cpp_libp2p.Base.{
  ℕ, zero, suc, ◌+◌, ◌-◌, ◌*◌, ◌%◌, ◌^◌, Bool, true, false, not, ◌&&◌, ◌||◌, Option, none, some,
  List, [], ◌∷◌, ◌++◌, map, ltb, ◌==◌, if◌then◌else◌, is_empty, length,
}
use cpp_libp2p.Basic.WriteQueue.{
  WriteQueue, empty, can_enqueue, enqueue, dequeue, ack_data_sent, get_all_callbacks, clear,
}
use cpp_libp2p.Basic.ReadBuffer.{
  ReadBuffer, empty_buffer, default_alloc_granularity, is_empty_buffer, add, consume,
  add_and_consume, clear_buffer,
}
use cpp_libp2p.Muxer.Yamux.Frame.{initial_window_size}

-- Stream::Error; `other` is a code of another category, which the connection passes down.
pub data Error : Type 0 where
  stream_internal_error : Error
  stream_invalid_argument : Error
  stream_protocol_error : Error
  stream_is_reading : Error
  stream_not_readable : Error
  stream_not_writable : Error
  stream_closed_by_host : Error
  stream_closed_by_peer : Error
  stream_reset_by_host : Error
  stream_reset_by_peer : Error
  stream_invalid_window_size : Error
  stream_write_overflow : Error
  stream_receive_overflow : Error
  other : ℕ → Error

-- outcome::result, of a size or of nothing.
pub data Outcome : Type 0 where
  size : ℕ → Outcome
  success : Outcome
  failure : Error → Outcome

pub data Event : Type 0 where
  write_stream_data : List ℕ → Event
  ack_received_bytes : ℕ → Event
  reset_stream : Event
  stream_closed : Event
  defer_call : ℕ → Outcome → Event
  call : ℕ → Outcome → Event
  copy_out : List ℕ → Event
  abort : Event

pub data DataFromConnectionResult : Type 0 where
  keep_stream : DataFromConnectionResult
  remove_stream : DataFromConnectionResult
  remove_stream_and_send_rst : DataFromConnectionResult

-- YamuxStream::Reading.
pub record Pending : Type 0 where
  pub out : ℕ
  pub cb : ℕ

pub record YamuxStream : Type 0 where
  pub is_readable : Bool
  pub is_writable : Bool
  pub fin_sent : Bool
  pub close_reason : Option Error
  pub window_size : ℕ
  pub peers_window_size : ℕ
  pub maximum_window_size : ℕ
  pub write_queue : WriteQueue
  pub internal_read_buffer : ReadBuffer
  pub reading : Option Pending
  pub window_size_cb : Option ℕ
  pub close_cb : Option ℕ

unfoldable pub new_yamux_stream : ℕ → ℕ → YamuxStream
new_yamux_stream maximum_window_size write_queue_limit = record {
  is_readable = true;
  is_writable = true;
  fin_sent = false;
  close_reason = none;
  window_size = initial_window_size;
  peers_window_size = initial_window_size;
  maximum_window_size = maximum_window_size;
  write_queue = empty write_queue_limit;
  internal_read_buffer = empty_buffer default_alloc_granularity;
  reading = none;
  window_size_cb = none;
  close_cb = none;
}

abbrev pub is_closed : YamuxStream → Bool
is_closed s = elim s.close_reason [ none ↦ false | some e ↦ true ]

-- A callback that may be empty, called only when it is set.
abbrev pub call_set : Option ℕ → Outcome → List Event
call_set none r = []
call_set (some c) r = call c r ∷ []

abbrev pub defer_set : Option ℕ → Outcome → List Event
defer_set none r = []
defer_set (some c) r = defer_call c r ∷ []

-- FinallyReading: what its destructor does with the reading that was taken.
abbrev pub finally_reading : Option Pending → Outcome → List Event
finally_reading none r = []
finally_reading (some p) r = call p.cb r ∷ []

-- `closeCompleted`, as `doClose` uses it: the result that the callback of `close` gets.
abbrev pub close_result : Error → Outcome
close_result stream_closed_by_host = success
close_result e = failure e

abbrev pub call_all : List ℕ → Error → List Event
call_all [] e = []
call_all (c ∷ cs) e = call c (failure e) ∷ call_all cs e

unfoldable pub do_close : Error → YamuxStream → List Event × YamuxStream
do_close ec s =
    let write_callbacks = (get_all_callbacks s.write_queue).0 in
    if is_closed s then (finally_reading s.reading (failure ec), record s { reading = none }) else (
      call_all write_callbacks ec
          ++ call_set s.window_size_cb (failure ec)
          ++ call_set s.close_cb (close_result ec)
          ++ finally_reading s.reading (failure ec),
      record s {
        close_reason = some ec;
        is_readable = false;
        is_writable = false;
        write_queue = clear s.write_queue;
        internal_read_buffer = clear_buffer s.internal_read_buffer;
        reading = none;
        window_size_cb = none;
        close_cb = none;
      },
    )

-- The loop of `doWrite()`. Each round but the last sends a byte at least.
unfoldable pub write_loop : ℕ → YamuxStream → List Event × YamuxStream
write_loop zero s = ([], s)
write_loop (suc fuel) s = elim s.close_reason [
  | some e ↦ ([], s)
  | none ↦
      let (w, bytes, q) = dequeue s.window_size s.write_queue in
      elim bytes [
        | [] ↦ ([], record s { window_size = w; write_queue = q })
        | b ∷ bs ↦
            let (events, s') = write_loop fuel (record s { window_size = w; write_queue = q }) in
            (write_stream_data (b ∷ bs) ∷ events, s')
      ]
]

-- The part of `doWrite()` behind its loop.
unfoldable pub finish_write : YamuxStream → List Event × YamuxStream
finish_write s =
    let fin = (if s.fin_sent then [] else stream_closed ∷ []) in
    let s1 : YamuxStream = record s { fin_sent = true } in
    let (events, s2) = do_close stream_closed_by_host s1 in
    if not s.is_writable && not (is_closed s) && ltb 0 s.window_size
    then if not s.is_readable
      then (fin ++ events, s2)
      else (fin, record s1 { peers_window_size = s.maximum_window_size })
    else ([], s)

unfoldable pub do_write : YamuxStream → List Event × YamuxStream
do_write s =
    let (events, s1) = write_loop (suc s.write_queue.total_unsent_size) s in
    let (more, s2) = finish_write s1 in (events ++ more, s2)

-- `doWrite(in, cb)`, which is `writeSome`.
unfoldable pub write_some : List ℕ → ℕ → YamuxStream → List Event × YamuxStream
write_some bytes cb s =
    if is_empty bytes
    then (defer_call cb (failure stream_invalid_argument) ∷ [], s)
    else if not s.is_writable
    then (defer_call cb (failure stream_not_writable) ∷ [], s)
    else elim s.close_reason [
      | some e ↦ (defer_call cb (failure e) ∷ [], s)
      | none ↦
          if not (can_enqueue (length bytes) s.write_queue)
          then (defer_call cb (failure stream_write_overflow) ∷ [], s)
          else do_write (record s { write_queue = enqueue bytes (some cb) s.write_queue })
    ]

-- `doRead`, which is `readSome`, into a span of `out` bytes.
unfoldable pub read_some : ℕ → ℕ → YamuxStream → List Event × YamuxStream
read_some out cb s =
    let (bytes, buffer) = consume out s.internal_read_buffer in
    if out == 0
    then (defer_call cb (failure stream_invalid_argument) ∷ [], s)
    else if not (is_empty_buffer s.internal_read_buffer)
    then (
      copy_out bytes ∷ (if s.is_readable then ack_received_bytes (length bytes) ∷ [] else [])
          ++ defer_call cb (size (length bytes)) ∷ [],
      record s { internal_read_buffer = buffer },
    )
    else elim s.close_reason [
      | some e ↦ (defer_call cb (failure e) ∷ [], s)
      | none ↦ elim s.reading [
        | some p ↦ (abort ∷ [], s)
        | none ↦
            if not s.is_readable
            then (defer_call cb (failure stream_not_readable) ∷ [], s)
            else ([], record s { reading = some (record { out = out; cb = cb }) })
      ]
    ]

unfoldable pub close : Option ℕ → YamuxStream → List Event × YamuxStream
close cb s = elim s.close_reason [
  | some e ↦ (defer_set cb (failure e), s)
  | none ↦
      let s1 : YamuxStream = record s { close_cb = cb } in
      if s.is_writable then do_write (record s1 { is_writable = false }) else ([], s1)
]

unfoldable pub reset : YamuxStream → List Event × YamuxStream
reset s = let (events, s1) = do_close stream_reset_by_host s in (reset_stream ∷ events, s1)

abbrev pub adjust_error : ℕ → YamuxStream → Option Error
adjust_error new_size s = elim s.close_reason [
  | some e ↦ some e
  | none ↦
      if not s.is_readable
      then some stream_not_readable
      else if ltb s.maximum_window_size new_size || ltb new_size s.peers_window_size
      then some stream_invalid_window_size
      else none
]

unfoldable pub adjust_window_size : ℕ → Option ℕ → YamuxStream → List Event × YamuxStream
adjust_window_size new_size cb s = elim (adjust_error new_size s) [
  | some e ↦ (defer_set cb (failure e), s)
  | none ↦
      if ltb s.peers_window_size new_size
      then (
        ack_received_bytes (new_size - s.peers_window_size) ∷ defer_set cb success,
        record s { peers_window_size = new_size },
      )
      else (defer_set cb success, s)
]

unfoldable pub increase_send_window : ℕ → YamuxStream → List Event × YamuxStream
increase_send_window delta s =
    if ltb 0 delta
    then do_write (record s { window_size = (s.window_size + delta) % 2 ^ 64 })
    else ([], s)

-- `onDataReceived` after the bytes are stored: `consumed` bytes went to the reader.
unfoldable pub after_data : ℕ → YamuxStream → DataFromConnectionResult × List Event × YamuxStream
after_data consumed s =
    let overflow = ltb s.peers_window_size s.internal_read_buffer.total_size in
    let (events, closed) = do_close stream_receive_overflow s in
    if is_closed s
    then (remove_stream_and_send_rst, [], s)
    else if overflow && not (is_empty_buffer s.internal_read_buffer)
    then (remove_stream_and_send_rst, events, closed)
    else (keep_stream, if ltb 0 consumed then ack_received_bytes consumed ∷ [] else [], s)

unfoldable pub on_data_received :
    List ℕ → YamuxStream → DataFromConnectionResult × List Event × YamuxStream
on_data_received bytes s = if is_empty bytes then (keep_stream, [], s) else elim s.reading [
  | none ↦ after_data 0 (record s { internal_read_buffer = add bytes s.internal_read_buffer })
  | some p ↦
      let (out, buffer) = add_and_consume bytes p.out s.internal_read_buffer in
      let (result, events, s1) =
        after_data (length out) (record s { internal_read_buffer = buffer; reading = none }) in
      (result, copy_out out ∷ events ++ call p.cb (size (length out)) ∷ [], s1)
]

unfoldable pub on_fin_received : YamuxStream → DataFromConnectionResult × List Event × YamuxStream
on_fin_received s =
    let finally = finally_reading s.reading (failure stream_closed_by_host) in
    let taken : YamuxStream = record s { reading = none } in
    let (events, closed) = do_close stream_closed_by_host (record taken { is_readable = false }) in
    if is_closed s
    then (remove_stream_and_send_rst, finally, taken)
    else if not s.is_writable
    then (remove_stream, events ++ finally, closed)
    else (keep_stream, finally, record taken { is_readable = false })

unfoldable pub on_rst_received : YamuxStream → List Event × YamuxStream
on_rst_received s = if is_closed s then ([], s) else do_close stream_reset_by_peer s

unfoldable pub on_data_written : ℕ → YamuxStream → List Event × YamuxStream
on_data_written bytes s =
    let (result, q) = ack_data_sent bytes s.write_queue in
    let s1 : YamuxStream = record s { write_queue = q } in
    let (events, s2) = do_close stream_internal_error s1 in
    if not result.data_consistent
    then (reset_stream ∷ events, s2)
    else (call_set result.cb (size result.size_to_ack), s1)

abbrev pub closed_by_connection : Error → YamuxStream → List Event × YamuxStream
closed_by_connection ec s = do_close ec s

-- The calls of a stream, by the application and by the connection.
pub data Call : Type 0 where
  do_write_some : List ℕ → ℕ → Call
  do_read_some : ℕ → ℕ → Call
  do_close_write : Option ℕ → Call
  do_reset : Call
  do_adjust_window_size : ℕ → Option ℕ → Call
  do_increase_send_window : ℕ → Call
  data_received : List ℕ → Call
  fin_received : Call
  rst_received : Call
  data_written : ℕ → Call
  connection_closed : Error → Call

unfoldable pub step : Call → YamuxStream → List Event × YamuxStream
step (do_write_some bytes cb) s = write_some bytes cb s
step (do_read_some out cb) s = read_some out cb s
step (do_close_write cb) s = close cb s
step do_reset s = reset s
step (do_adjust_window_size n cb) s = adjust_window_size n cb s
step (do_increase_send_window delta) s = increase_send_window delta s
step (data_received bytes) s = let (result, events, s1) = on_data_received bytes s in (events, s1)
step fin_received s = let (result, events, s1) = on_fin_received s in (events, s1)
step rst_received s = on_rst_received s
step (data_written n) s = on_data_written n s
step (connection_closed e) s = closed_by_connection e s

unfoldable pub run : List Call → YamuxStream → List Event × YamuxStream
run [] s = ([], s)
run (c ∷ cs) s = let (events, s1) = step c s in let (more, s2) = run cs s1 in (events ++ more, s2)
