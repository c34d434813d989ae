-- ===== src/Muxer/Yamux/Stream/Fins.antt =====
-- YamuxStream::onFINReceived, by the state of the stream.
use cpp_libp2p.Base.{ℕ, ◌≡◌, true, false, none, some, List, [], count}
use cpp_libp2p.Basic.WriteQueue.Fifo.{pending}
use cpp_libp2p.Muxer.Yamux.Stream.{
  YamuxStream, Event, Error, stream_closed_by_host, keep_stream, remove_stream,
  remove_stream_and_send_rst, DataFromConnectionResult,
}
use cpp_libp2p.Muxer.Yamux.Stream.Events.{finished, fins, written}
use cpp_libp2p.Muxer.Yamux.Stream.Valid.{IsValid}
use cpp_libp2p.Muxer.Yamux.Stream.Closing.{waiting_calls}

-- What a FIN frame does to a stream.
pub record FinSpec (s : YamuxStream) (r : DataFromConnectionResult × List Event × YamuxStream)
    : Type 0 where
  pub valid : IsValid r.2
  pub silent : (written r.1 ≡ []) × (fins r.1 ≡ 0)
  pub half :
      s.close_reason ≡ none
      → s.is_writable ≡ true
      → (r.0 ≡ keep_stream)
        × (pending r.2.write_queue.queue ≡ pending s.write_queue.queue)
        × (r.2.close_reason ≡ none)
        × (r.2.is_readable ≡ false)
  pub whole :
      s.close_reason ≡ none
      → s.is_writable ≡ false
      → (r.0 ≡ remove_stream)
        × (pending r.2.write_queue.queue ≡ [])
        × (r.2.close_reason ≡ some stream_closed_by_host)
        × ((c : ℕ) → count c (finished r.1) ≡ count c (waiting_calls s))
  pub closed : (e : Error) → s.close_reason ≡ some e → r.0 ≡ remove_stream_and_send_rst
