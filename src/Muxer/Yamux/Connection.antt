-- ===== src/Muxer/Yamux/Connection.antt =====
-- include/libp2p/muxer/yamux/yamuxed_connection.hpp and src/muxer/yamux/yamuxed_connection.cpp: the
-- streams over one connection. What the connection does outside is its log of events, in order: the
-- writes to the raw connection, which complete later by `on_data_written`, the calls of handlers,
-- the timers. The maps are association lists. A stream runs a call to its end before the connection
-- takes its feedback; handlers do not call the connection back. A stream that the maps do not hold
-- any more is closed.
pub mod Frames
pub mod Writes
pub mod Told
pub mod Closing
pub mod Limits
pub mod Ids
use cpp_libp2p.Base.{
  ℕ, suc, ◌+◌, ◌-◌, ◌*◌, ◌||◌, ◌%◌, ◌^◌, Bool, true, false, not, ◌&&◌, Option, none, some, List, [],
  ◌∷◌, ◌++◌, ltb, leb, ◌==◌, if◌then◌else◌, is_empty, length, find_key, erase_key, put_key, bit_xor,
  bit_and,
}
use cpp_libp2p.Basic.WriteQueue.{default_size_limit}
use cpp_libp2p.Muxer.Yamux.Frame.{
  YamuxFrame, GoAwayError, normal, initial_window_size, header_length, new_stream_msg,
  ack_stream_msg, close_stream_msg, reset_stream_msg, ping_out_msg, ping_response_msg, data_msg,
  go_away_msg, window_update_msg,
}
use cpp_libp2p.Muxer.Yamux.Stream.{
  YamuxStream, new_yamux_stream, write_stream_data, ack_received_bytes, reset_stream, stream_closed,
  do_close,
}
use cpp_libp2p.Muxer.Yamux.Stream

-- LayerConnection::Error, and the codes of a stream that a handler is told.
pub data ConnectionError : Type 0 where
  connection_internal_error : ConnectionError
  connection_invalid_argument : ConnectionError
  connection_protocol_error : ConnectionError
  connection_not_active : ConnectionError
  connection_too_many_streams : ConnectionError
  connection_direct_io_forbidden : ConnectionError
  connection_closed_by_host : ConnectionError
  connection_closed_by_peer : ConnectionError
  of_stream : Stream.Error → ConnectionError
  of_system : ℕ → ConnectionError

-- YamuxedConnection::WriteQueueItem.
pub record WriteQueueItem : Type 0 where
  pub packet : List ℕ
  pub stream_id : ℕ

pub data Event : Type 0 where
  raw_write : WriteQueueItem → Event
  raw_read : Event
  raw_close : Event
  stream_event : ℕ → Stream.Event → Event
  handler_stream : ℕ → ℕ → Event
  handler_error : ℕ → ConnectionError → Event
  deferred_error : ℕ → ConnectionError → Event
  closed_callback : Event
  schedule_expire : Event
  schedule_cleanup : Event
  schedule_ping : Event

-- MuxedConnectionConfig, as far as yamux reads it. The intervals are milliseconds.
pub record MuxedConnectionConfig : Type 0 where
  pub maximum_window_size : ℕ
  pub maximum_streams : ℕ
  pub ping_interval : ℕ
  pub no_streams_interval : ℕ

-- The reading state stands beside the connection, since its callbacks are told the connection.
pub record YamuxedConnection : Type 0 where
  pub config : MuxedConnectionConfig
  pub started : Bool
  pub is_writing : Bool
  pub write_queue : List WriteQueueItem
  pub streams : List (ℕ × YamuxStream)
  pub fresh_streams : List (ℕ × Option ℕ)
  pub new_stream_handler : Option ℕ
  pub new_stream_id : ℕ
  pub pending_outbound_streams : List (ℕ × ℕ)
  pub inactivity_handle : Bool
  pub has_closed_callback : Bool
  pub ping_counter : ℕ
  pub close_after_write : Bool
  pub log : List Event

unfoldable pub new_yamuxed_connection : MuxedConnectionConfig → Bool → Bool → YamuxedConnection
new_yamuxed_connection config is_initiator has_closed_callback = record {
  config = config;
  started = false;
  is_writing = false;
  write_queue = [];
  streams = [];
  fresh_streams = [];
  new_stream_handler = none;
  new_stream_id = if is_initiator then 1 else 2;
  pending_outbound_streams = [];
  inactivity_handle = false;
  has_closed_callback = has_closed_callback;
  ping_counter = 0;
  close_after_write = false;
  log = [];
}

abbrev pub emit : Event → YamuxedConnection → YamuxedConnection
emit e c = record c { log = c.log ++ e ∷ [] }

unfoldable pub is_outbound : ℕ → ℕ → Bool
is_outbound our_stream_id their_stream_id = bit_and (bit_xor our_stream_id their_stream_id) 1 == 0

abbrev pub do_write : WriteQueueItem → YamuxedConnection → YamuxedConnection
do_write item c = emit (raw_write item) (record c { is_writing = true })

unfoldable pub enqueue : List ℕ → ℕ → YamuxedConnection → YamuxedConnection
enqueue packet stream_id c =
    let item : WriteQueueItem = record { packet = packet; stream_id = stream_id } in
    if c.is_writing then record c { write_queue = c.write_queue ++ item ∷ [] } else do_write item c

unfoldable pub adjust_expire_timer : YamuxedConnection → YamuxedConnection
adjust_expire_timer c =
    if ltb 0 c.config.no_streams_interval
      && is_empty c.streams
      && is_empty c.pending_outbound_streams
    then emit schedule_expire (record c { inactivity_handle = true })
    else c

unfoldable pub erase_stream : ℕ → YamuxedConnection → YamuxedConnection
erase_stream id c = adjust_expire_timer (record c { streams = erase_key id c.streams })

unfoldable pub erase_pending_outbound_stream : ℕ → YamuxedConnection → YamuxedConnection
erase_pending_outbound_stream id c =
    adjust_expire_timer
      (record c { pending_outbound_streams = erase_key id c.pending_outbound_streams })

unfoldable pub create_stream : ℕ → YamuxedConnection → YamuxedConnection
create_stream id c = record c {
  streams = put_key id (new_yamux_stream c.config.maximum_window_size default_size_limit) c.streams;
  inactivity_handle = false;
}

-- The connection's `streamClosed`, called by a stream that sends FIN.
unfoldable pub close_stream : ℕ → YamuxedConnection → YamuxedConnection
close_stream id c = elim (find_key id c.streams) [
  | none ↦ c
  | some stream ↦
      let c1 = enqueue (close_stream_msg id) 0 c in
      if not stream.is_readable then erase_stream id c1 else c1
]

-- YamuxStreamFeedback: writeStreamData, ackReceivedBytes, resetStream, streamClosed.
unfoldable pub feedback : ℕ → Stream.Event → YamuxedConnection → YamuxedConnection
feedback id (write_stream_data bytes) c = enqueue (data_msg id (length bytes) ++ bytes) id c
feedback id (ack_received_bytes n) c = enqueue (window_update_msg id n) 0 c
feedback id reset_stream c = erase_stream id (enqueue (reset_stream_msg id) 0 c)
feedback id stream_closed c = close_stream id c
feedback id e c = emit (stream_event id e) c

unfoldable pub feedbacks : ℕ → List Stream.Event → YamuxedConnection → YamuxedConnection
feedbacks id [] c = c
feedbacks id (e ∷ es) c = feedbacks id es (feedback id e c)

-- A stream of the map has run one of its calls.
abbrev pub stream_ran : ℕ → List Stream.Event × YamuxStream → YamuxedConnection → YamuxedConnection
stream_ran id (events, stream) c =
    feedbacks id events (record c { streams = put_key id stream c.streams })

-- The loops of `close` over the streams and the handlers.
unfoldable pub close_streams :
    Stream.Error → List (ℕ × YamuxStream) → YamuxedConnection → YamuxedConnection
close_streams e [] c = c
close_streams e ((id, stream) ∷ rest) c =
    close_streams e rest (feedbacks id (do_close e stream).0 c)

unfoldable pub fail_pending : ConnectionError → List (ℕ × ℕ) → YamuxedConnection → YamuxedConnection
fail_pending e [] c = c
fail_pending e ((id, cb) ∷ rest) c = fail_pending e rest (emit (handler_error cb e) c)

-- The error code that a stream is told; the codes of a connection are of another category.
abbrev pub stream_code : ConnectionError → Stream.Error
stream_code connection_internal_error = Stream.other 1
stream_code connection_invalid_argument = Stream.other 2
stream_code connection_protocol_error = Stream.other 3
stream_code connection_not_active = Stream.other 4
stream_code connection_too_many_streams = Stream.other 5
stream_code connection_direct_io_forbidden = Stream.other 6
stream_code connection_closed_by_host = Stream.other 7
stream_code connection_closed_by_peer = Stream.other 8
stream_code (of_stream e) = e
stream_code (of_system n) = Stream.other (n + 9)

unfoldable pub close : ConnectionError → Option GoAwayError → YamuxedConnection → YamuxedConnection
close code reply c =
    let c1 : YamuxedConnection = record c {
      started = false;
      streams = [];
      pending_outbound_streams = [];
    } in
    let c2 = close_streams (stream_code code) c.streams c1 in
    let c3 = fail_pending code c.pending_outbound_streams c2 in
    let c4 = (if c3.has_closed_callback then emit closed_callback c3 else c3) in
    let c5 : YamuxedConnection = record c4 { close_after_write = true } in
    if not c.started then c else elim reply [
      | some error ↦ enqueue (go_away_msg error) 0 c5
      | none ↦ emit raw_close (record c5 { write_queue = [] })
    ]

abbrev pub close_by_host : YamuxedConnection → YamuxedConnection
close_by_host c = close connection_closed_by_host (some normal) c

unfoldable pub start : YamuxedConnection → YamuxedConnection
start c =
    let c1 = emit schedule_cleanup (record c { started = true }) in
    let c2 = (if not (c1.config.ping_interval == 0) then emit schedule_ping c1 else c1) in
    if c.started then c else emit raw_read c2

abbrev pub stop : YamuxedConnection → YamuxedConnection
stop c = record c { started = false }

abbrev pub on_stream : ℕ → YamuxedConnection → YamuxedConnection
on_stream cb c = record c { new_stream_handler = some cb }

-- The next id is 32 bits wide.
abbrev pub take_stream_id : YamuxedConnection → YamuxedConnection
take_stream_id c = record c { new_stream_id = (c.new_stream_id + 2) % 2 ^ 32 }

-- `newStream()`: the id of the stream, or the error.
pub data NewStream : Type 0 where
  opened : ℕ → NewStream
  not_opened : ConnectionError → NewStream

unfoldable pub new_stream : YamuxedConnection → NewStream × YamuxedConnection
new_stream c =
    if not c.started
    then (not_opened connection_not_active, c)
    else if leb c.config.maximum_streams (length c.streams)
    then (not_opened connection_too_many_streams, c)
    else (
      opened c.new_stream_id,
      create_stream c.new_stream_id (enqueue (new_stream_msg c.new_stream_id) 0 (take_stream_id c)),
    )

-- `newStream(cb)`.
unfoldable pub new_stream_with : ℕ → YamuxedConnection → YamuxedConnection
new_stream_with cb c =
    let c1 = enqueue (new_stream_msg c.new_stream_id) 0 (take_stream_id c) in
    if not c.started
    then emit (deferred_error cb connection_not_active) c
    else if leb c.config.maximum_streams (length c.streams)
    then emit (deferred_error cb connection_too_many_streams) c
    else record c1 {
      pending_outbound_streams = put_key c.new_stream_id cb c1.pending_outbound_streams;
      inactivity_handle = false;
    }

-- The written packet tells its stream, without the header.
unfoldable pub tell_written : WriteQueueItem → YamuxedConnection → YamuxedConnection
tell_written item c =
    let sz =
      (if ltb (length item.packet) header_length then 0 else length item.packet - header_length) in
    if item.stream_id == 0 || sz == 0 then c else elim (find_key item.stream_id c.streams) [
      | none ↦ c
      | some stream ↦ stream_ran item.stream_id (Stream.on_data_written sz stream) c
    ]

-- `onDataWritten` behind the call of the stream.
unfoldable pub write_next : YamuxedConnection → YamuxedConnection
write_next c = elim c.write_queue [
  | [] ↦
      let c1 : YamuxedConnection = record c { is_writing = false } in
      if c.close_after_write then emit raw_close c1 else c1
  | item ∷ rest ↦ do_write item (record c { write_queue = rest })
]

unfoldable pub on_data_written : Option ℕ → WriteQueueItem → YamuxedConnection → YamuxedConnection
on_data_written error item c = elim error [
  | some e ↦ close (of_system e) none (emit raw_close (record c { write_queue = [] }))
  | none ↦ write_next (tell_written item c)
]

unfoldable pub on_expire_timer : YamuxedConnection → YamuxedConnection
on_expire_timer c =
    if is_empty c.streams && is_empty c.pending_outbound_streams
    then close connection_not_active (some normal) c
    else c

-- The streams that only the map holds are reset; `abandoned` says which these are.
unfoldable pub reset_abandoned :
    (ℕ → Bool) → List (ℕ × YamuxStream) → YamuxedConnection → YamuxedConnection
reset_abandoned abandoned [] c = c
reset_abandoned abandoned ((id, stream) ∷ rest) c =
    let c1 = enqueue (reset_stream_msg id) 0 c in
    reset_abandoned abandoned rest (if abandoned id then c1 else c)

unfoldable pub erase_abandoned : (ℕ → Bool) → List (ℕ × YamuxStream) → List (ℕ × YamuxStream)
erase_abandoned abandoned [] = []
erase_abandoned abandoned ((id, stream) ∷ rest) =
    let rest' = erase_abandoned abandoned rest in
    if abandoned id then rest' else (id, stream) ∷ rest'

unfoldable pub on_cleanup_timer : (ℕ → Bool) → YamuxedConnection → YamuxedConnection
on_cleanup_timer abandoned c =
    let c1 = reset_abandoned abandoned c.streams c in
    if not c.started
    then c
    else emit schedule_cleanup (record c1 { streams = erase_abandoned abandoned c1.streams })

unfoldable pub on_ping_timer : YamuxedConnection → YamuxedConnection
on_ping_timer c =
    let counter = (c.ping_counter + 1) % 2 ^ 32 in
    let c1 =
      (if not c.is_writing
        then enqueue (ping_out_msg counter) 0 (record c { ping_counter = counter })
        else c) in
    if not c.started then c else emit schedule_ping c1
