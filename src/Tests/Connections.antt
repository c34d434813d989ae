-- ===== src/Tests/Connections.antt =====
-- The yamux connection.
use cpp_libp2p.Base.{
  one, List, ◌++◌, ◌≡◌, ◌≤◌, refl, true, none, some, [], ◌∷◌, arith, length, contains_key, find_key,
}
use cpp_libp2p.Muxer.Yamux.Frame.{YamuxFrame, data_frame, normal, new_stream_msg}
use cpp_libp2p.Muxer.Yamux.Stream.{new_yamux_stream}
use cpp_libp2p.Muxer.Yamux.Connection.{
  YamuxedConnection, MuxedConnectionConfig, WriteQueueItem, new_yamuxed_connection, close,
  connection_closed_by_host, on_data_written, new_stream, opened, is_outbound,
}
use cpp_libp2p.Muxer.Yamux.Connection.Frames.{process_syn}
use cpp_libp2p.Muxer.Yamux.Connection.Writes
use cpp_libp2p.Muxer.Yamux.Connection.Closing
use cpp_libp2p.Muxer.Yamux.Connection.Told
use cpp_libp2p.Muxer.Yamux.Connection.Limits
use cpp_libp2p.Muxer.Yamux.Connection.Ids

abbrev config : MuxedConnectionConfig
config = record {
  maximum_window_size = 1048576;
  maximum_streams = 1;
  ping_interval = 5000;
  no_streams_interval = 120000;
}

-- A running connection with one stream and one handler that waits, and a write under way.
abbrev running : YamuxedConnection
running = record (new_yamuxed_connection config true true) {
  started = true;
  is_writing = true;
  streams = (1, new_yamux_stream 1048576 67108864) ∷ [];
  pending_outbound_streams = (3, 9) ∷ [];
  new_stream_id = 5;
}

-- A running connection without streams.
abbrev idle : YamuxedConnection
idle = record (new_yamuxed_connection config true true) {
  started = true;
  new_stream_handler = some 5;
}

abbrev syn_frame : YamuxFrame
syn_frame = record { version = 0; type = data_frame; flags = 1; stream_id = 2; length_field = 0 }

abbrev written_item : WriteQueueItem
written_item = record { packet = new_stream_msg 3; stream_id = 0 }

first_id : (new_stream idle).0 ≡ opened 1
unfolding new_stream new_yamuxed_connection
first_id = refl

streams_open : Told.AllOpen running.streams
unfolding new_yamux_stream
streams_open = (refl, tt)

close_lem_example :
    Closing.CloseSpec running (close connection_closed_by_host (some normal) running)
unfolding new_yamuxed_connection
close_lem_example =
    Closing.close_lem connection_closed_by_host (some normal) running refl streams_open

-- A connection with a write under way and a packet that waits.
abbrev writing : YamuxedConnection
writing = record running { write_queue = record { packet = new_stream_msg 5; stream_id = 0 } ∷ [] }

on_data_written-Continues_example :
    (added : List WriteQueueItem) × Writes.Continues
      (Writes.sent writing.log)
      (writing.write_queue ++ added)
      (on_data_written none written_item writing)
unfolding new_yamuxed_connection
on_data_written-Continues_example = Writes.on_data_written-Continues written_item writing refl

syn_frame-IsNewInbound : Limits.IsNewInbound syn_frame idle
unfolding new_yamuxed_connection is_outbound contains_key find_key
syn_frame-IsNewInbound = record {
  nonzero = omega arith;
  inbound = refl;
  unknown = refl;
  handled = (5, refl);
}

process_syn_lem_example : Limits.SynSpec idle (process_syn syn_frame idle)
process_syn_lem_example = Limits.process_syn_lem syn_frame idle syn_frame-IsNewInbound

length-new_stream_example : length (new_stream idle).1.streams ≤ idle.config.maximum_streams
unfolding new_yamuxed_connection
length-new_stream_example = Limits.length-new_stream idle (omega arith)

-- `running`, where one more stream has room.
abbrev roomy : YamuxedConnection
roomy = record running { config = record config { maximum_streams = 2 } }

roomy-OwnIds : Ids.OwnIds roomy
unfolding one
roomy-OwnIds = record {
  in_streams = λ q le parity. ground arith;
  in_pending = λ q le parity. ground arith;
}

new_stream-NewStreamSpec_example : Ids.NewStreamSpec roomy (new_stream roomy)
new_stream-NewStreamSpec_example = Ids.new_stream-NewStreamSpec roomy roomy-OwnIds (omega arith)

-- The third own id is taken, beside those of a stream and of a handler that waits.
third_id : (new_stream roomy).0 ≡ opened 5
unfolding new_stream new_yamuxed_connection
third_id = refl
