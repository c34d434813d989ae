-- ===== src/Muxer/Yamux/Stream/Valid.antt =====
-- The invariant of a stream.
use cpp_libp2p.Base.{ℕ, ◌≤◌, ◌<◌, ◌≡◌, true, false, some, none, [], arith}
use cpp_libp2p.Basic.WriteQueue.Valid as QueueValid
use cpp_libp2p.Basic.ReadBuffer.Valid as BufferValid
use cpp_libp2p.Muxer.Yamux.Stream.{YamuxStream, Error, Pending, new_yamux_stream}
use cpp_libp2p.Muxer.Yamux.Frame.{initial_window_size}

-- What a closed stream has given up.
pub record IsQuiet (s : YamuxStream) : Type 0 where
  pub not_readable : s.is_readable ≡ false
  pub not_writable : s.is_writable ≡ false
  pub no_reading : s.reading ≡ none
  pub no_messages : s.write_queue.queue ≡ []
  pub no_unsent : s.write_queue.total_unsent_size ≡ 0
  pub no_close_cb : s.close_cb ≡ none

-- A reader waits only while there is nothing to read and more may come.
pub record IsWaiting (p : Pending) (s : YamuxStream) : Type 0 where
  pub nothing_read : s.internal_read_buffer.total_size ≡ 0
  pub readable : s.is_readable ≡ true
  pub room : 0 < p.out

-- After the FIN frame nothing is left to send and nothing more is accepted.
pub record IsFinished (s : YamuxStream) : Type 0 where
  pub not_writable : s.is_writable ≡ false
  pub no_unsent : s.write_queue.total_unsent_size ≡ 0

pub record IsValid (s : YamuxStream) : Type 0 where
  pub queue : QueueValid.IsValid s.write_queue
  pub buffer : BufferValid.IsValid s.internal_read_buffer
  pub closed : (e : Error) → s.close_reason ≡ some e → IsQuiet s
  pub waiting : (p : Pending) → s.reading ≡ some p → IsWaiting p s
  pub within : s.close_reason ≡ none → s.internal_read_buffer.total_size ≤ s.peers_window_size
  pub bound : s.peers_window_size ≤ s.maximum_window_size
  pub finished : s.fin_sent ≡ true → IsFinished s

-- The constructor gives a stream that has the invariant, when the window sizes are as it asserts.
pub new_yamux_stream-IsValid :
    (maximum_window_size write_queue_limit : ℕ)
    → initial_window_size ≤ maximum_window_size
    → IsValid (new_yamux_stream maximum_window_size write_queue_limit)
unfolding new_yamux_stream
new_yamux_stream-IsValid m l le = record {
  queue = QueueValid.empty-IsValid l;
  buffer = BufferValid.empty_buffer-IsValid _ (omega arith);
  closed = λ e h. cc;
  waiting = λ p h. cc;
  within = λ _. omega arith;
  bound = le;
  finished = λ h. cc;
}
