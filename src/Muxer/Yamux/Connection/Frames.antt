-- ===== src/Muxer/Yamux/Connection/Frames.antt =====
-- src/muxer/yamux/yamuxed_connection.cpp: what the connection does with the frames it reads.
use cpp_libp2p.Base.{
  ℕ, ◌⊎◌, inl, inr, ◌+◌, Bool, true, false, not, ◌&&◌, Option, none, some, List, [], ◌∷◌, ◌++◌, ltb,
  ◌==◌, if◌then◌else◌, is_empty, length, find_key, contains_key,
}
use cpp_libp2p.Muxer.Yamux.Frame.{
  YamuxFrame, FrameType, data_frame, window_update, ping, go_away, syn, ack, fin, rst, flag_is_set,
  protocol_error, internal_error, reset_stream_msg, ack_stream_msg, ping_response_msg,
}
use cpp_libp2p.Muxer.Yamux.ReadingState.{YamuxReadingState, Callbacks, discard_data_message}
use cpp_libp2p.Muxer.Yamux.ReadingState
use cpp_libp2p.Muxer.Yamux.Stream.{
  keep_stream, remove_stream, remove_stream_and_send_rst, on_data_received, on_fin_received,
  on_rst_received, increase_send_window, stream_reset_by_peer,
}
use cpp_libp2p.Muxer.Yamux.Connection.{
  YamuxedConnection, connection_protocol_error, connection_internal_error,
  connection_closed_by_peer, of_stream, of_system, handler_stream, handler_error, raw_read,
  ConnectionError, emit, is_outbound, enqueue, erase_stream, erase_pending_outbound_stream,
  create_stream, feedbacks, stream_ran, close,
}

abbrev pub is_ping : FrameType → Bool
is_ping ping = true
is_ping data_frame = false
is_ping window_update = false
is_ping go_away = false

abbrev pub is_window_update : FrameType → Bool
is_window_update window_update = true
is_window_update data_frame = false
is_window_update ping = false
is_window_update go_away = false

abbrev pub is_go_away : FrameType → Bool
is_go_away go_away = true
is_go_away data_frame = false
is_go_away ping = false
is_go_away window_update = false

abbrev pub refuse_frame : YamuxedConnection → Bool × YamuxedConnection
refuse_frame c = (false, close connection_protocol_error (some protocol_error) c)

-- A handler is called after all bytes that came are processed.
abbrev pub fresh_stream : ℕ → Option ℕ → YamuxedConnection → YamuxedConnection
fresh_stream id handler c = record c { fresh_streams = c.fresh_streams ++ (id, handler) ∷ [] }

abbrev pub accept_inbound : ℕ → YamuxedConnection → YamuxedConnection
accept_inbound id c = fresh_stream id none (enqueue (ack_stream_msg id) 0 (create_stream id c))

unfoldable pub process_syn : YamuxFrame → YamuxedConnection → Bool × YamuxedConnection
process_syn frame c =
    if frame.stream_id == 0
    then if is_ping frame.type
      then (true, enqueue (ping_response_msg frame.length_field) 0 c)
      else refuse_frame c
    else if is_outbound c.new_stream_id frame.stream_id
    then refuse_frame c
    else if contains_key frame.stream_id c.streams
    then refuse_frame c
    else if ltb c.config.maximum_streams (length c.streams + length c.pending_outbound_streams)
    then (true, enqueue (reset_stream_msg frame.stream_id) 0 c)
    else elim c.new_stream_handler [
      | none ↦ (false, close connection_internal_error (some internal_error) c)
      | some handler ↦ (true, accept_inbound frame.stream_id c)
    ]

unfoldable pub process_ack : YamuxFrame → YamuxedConnection → Bool × YamuxedConnection
process_ack frame c =
    if frame.stream_id == 0
    then if is_ping frame.type then (true, c) else refuse_frame c
    else elim (find_key frame.stream_id c.pending_outbound_streams) [
      | none ↦ if contains_key frame.stream_id c.streams then (true, c) else refuse_frame c
      | some handler ↦ (
        true,
        fresh_stream frame.stream_id (some handler)
            (create_stream frame.stream_id (erase_pending_outbound_stream frame.stream_id c)),
      )
    ]

-- FIN or RST for a stream that the peer has not accepted yet.
unfoldable pub fail_pending_stream : ℕ → YamuxedConnection → YamuxedConnection
fail_pending_stream id c =
    if is_outbound c.new_stream_id id
    then elim (find_key id c.pending_outbound_streams) [
      | none ↦ c
      | some cb ↦
          emit (handler_error cb (of_stream stream_reset_by_peer))
            (erase_pending_outbound_stream id c)
    ]
    else c

unfoldable pub process_fin : ℕ → YamuxedConnection → YamuxedConnection
process_fin id c = elim (find_key id c.streams) [
  | none ↦ fail_pending_stream id c
  | some stream ↦
      let (result, events, stream') = on_fin_received stream in
      let c1 = stream_ran id (events, stream') c in
      elim result [
        | keep_stream ↦ c1
        | remove_stream ↦ erase_stream id c1
        | remove_stream_and_send_rst ↦ c1
      ]
]

unfoldable pub process_rst : ℕ → YamuxedConnection → YamuxedConnection
process_rst id c = elim (find_key id c.streams) [
  | none ↦ fail_pending_stream id c
  | some stream ↦ feedbacks id (on_rst_received stream).0 (erase_stream id c)
]

unfoldable pub process_window_update : YamuxFrame → YamuxedConnection → Bool × YamuxedConnection
process_window_update frame c = elim (find_key frame.stream_id c.streams) [
  | none ↦ (true, c)
  | some stream ↦
      (true, stream_ran frame.stream_id (increase_send_window frame.length_field stream) c)
]

abbrev pub process_go_away : YamuxFrame → YamuxedConnection → YamuxedConnection
process_go_away frame c = close connection_closed_by_peer none c

-- Go on with `next` unless the flag is off or the step before it refused.
abbrev pub when_set :
    Bool
    → (YamuxedConnection → Bool × YamuxedConnection)
    → Bool × YamuxedConnection
    → Bool × YamuxedConnection
when_set flag next (go_on, c) = if go_on then if flag then next c else (true, c) else (false, c)

unfoldable pub process_header : Option YamuxFrame → YamuxedConnection → Bool × YamuxedConnection
process_header none c = refuse_frame c
process_header (some frame) c =
    let flagged =
      (when_set (is_window_update frame.type) (process_window_update frame) (
        when_set (flag_is_set ack frame) (process_ack frame)
          (when_set (flag_is_set syn frame) (process_syn frame) (true, c)))) in
    if is_go_away frame.type
    then (false, process_go_away frame c)
    else when_set (flag_is_set rst frame && not (frame.stream_id == 0))
        (λ d. (true, process_rst frame.stream_id d))
        (when_set (flag_is_set fin frame && not (frame.stream_id == 0))
          (λ d. (true, process_fin frame.stream_id d)) flagged)

unfoldable pub process_data :
    List ℕ → ℕ → YamuxReadingState × YamuxedConnection → YamuxReadingState × YamuxedConnection
process_data segment id (r, c) = elim (find_key id c.streams) [
  | none ↦ (discard_data_message r, c)
  | some stream ↦
      let (result, events, stream') = on_data_received segment stream in
      let c1 = stream_ran id (events, stream') c in
      elim result [
        | keep_stream ↦ (r, c1)
        | remove_stream ↦ (discard_data_message r, erase_stream id c1)
        | remove_stream_and_send_rst ↦
            (discard_data_message r, enqueue (reset_stream_msg id) 0 (erase_stream id c1))
      ]
]

-- The callbacks that the constructor gives to the reading state.
unfoldable pub callbacks : Callbacks YamuxedConnection
callbacks = record {
  on_header =
      λ header st. let (r, c) = st in let (go_on, c') = process_header header c in (go_on, r, c');
  on_data = λ segment id is_rst is_fin st.
      let (r, c) = (if is_empty segment then st else process_data segment id st) in
      let c1 = (if is_rst then process_rst id c else c) in
      (r, if is_fin then process_fin id c1 else c1);
}

-- The handlers of the streams that were created; a stream that is gone already is passed over.
unfoldable pub call_fresh : List (ℕ × Option ℕ) → YamuxedConnection → Bool × YamuxedConnection
call_fresh [] c = (true, c)
call_fresh ((id, handler) ∷ rest) c =
    let told : YamuxedConnection = elim (find_key id c.streams) [
      | none ↦ c
      | some stream ↦ elim handler as (λ _. YamuxedConnection) [
        | some cb ↦ emit (handler_stream cb id) c
        | none ↦ elim c.new_stream_handler [ none ↦ c | some cb ↦ emit (handler_stream cb id) c ]
      ]
    ] in
    let next = call_fresh rest told in if told.started then next else (false, told)

-- What a read of the raw connection gives; `eof` is the code of an end of file.
unfoldable pub on_read :
    ℕ → List ℕ ⊎ ℕ → YamuxReadingState × YamuxedConnection → YamuxReadingState × YamuxedConnection
on_read eof res (r, c) = elim res [
  | inr error ↦
      let code : ConnectionError =
        (if error == eof then connection_closed_by_peer else of_system error) in
      if not c.started then (r, c) else (r, close code none c)
  | inl bytes ↦
      let (r1, c1) = ReadingState.on_data_received callbacks bytes (r, c) in
      let (go_on, c2) = call_fresh c1.fresh_streams (record c1 { fresh_streams = [] }) in
      if not c.started
      then (r, c)
      else if not c1.started
      then (r1, c1)
      else (r1, if go_on then emit raw_read c2 else c2)
]
