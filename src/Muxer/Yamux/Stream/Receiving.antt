-- ===== src/Muxer/Yamux/Stream/Receiving.antt =====
-- What a stream does with a new window size, with data and with FIN: adjustWindowSize,
-- onDataReceived, onFINReceived.
use cpp_libp2p.Base.{
  ℕ, ◌-◌, ◌≤◌, ◌<◌, ◌≡◌, refl, ap, inl, inr, true, Bool-cases, Option, none, some, List, [], ◌∷◌,
  ◌++◌, arith, Option-cases, length, lt_or_le, count, if◌then◌else◌, ltb,
}
use cpp_libp2p.Basic.ReadBuffer.{ReadBuffer, add, add_and_consume}
use cpp_libp2p.Basic.ReadBuffer.Valid as BufferValid
use cpp_libp2p.Basic.ReadBuffer.Valid.{bytes_of}
use cpp_libp2p.Muxer.Yamux.Stream.{
  YamuxStream, Error, Event, Pending, copy_out, ack_received_bytes, call,
  stream_invalid_window_size, stream_not_readable, stream_receive_overflow, do_close, defer_set,
  adjust_window_size, success, after_data, on_data_received, Outcome, failure, size, keep_stream,
  remove_stream_and_send_rst, DataFromConnectionResult,
}
use cpp_libp2p.Muxer.Yamux.Stream.Events.{finished, fins, written, late-none}
use cpp_libp2p.Muxer.Yamux.Stream.Valid.{IsValid}
use cpp_libp2p.Muxer.Yamux.Stream.Closing.{waiting_calls, of_set}
use cpp_libp2p.Muxer.Yamux.Stream.Steps.{StepSpec, close_open-StepSpec}
use cpp_libp2p.Muxer.Yamux.Stream.Queueing.{defer_set-StepSpec}
use cpp_libp2p.Muxer.Yamux.Stream.Reads.{with_buffer, with_buffer-IsValid}

-- The new receive window is refused with a reason, or it is announced, or it is the old one.
data Adjusts (n : ℕ) (cb : Option ℕ) (s : YamuxStream) : Type 0 where
  unchanged : (o : Outcome) → adjust_window_size n cb s ≡ (defer_set cb o, s) → Adjusts n cb s
  announced :
      s.close_reason ≡ none
      → s.is_readable ≡ true
      → s.peers_window_size < n
      → n ≤ s.maximum_window_size
      → adjust_window_size n cb s ≡ (
        ack_received_bytes (n - s.peers_window_size) ∷ defer_set cb success,
        record s { peers_window_size = n },
      )
      → Adjusts n cb s

adjust_cases : (n : ℕ) (cb : Option ℕ) (s : YamuxStream) → Adjusts n cb s
unfolding adjust_window_size
adjust_cases n cb s = elim (Option-cases s.close_reason) [
  | inr (e, h) ↦ unchanged (failure e) (ground arith)
  | inl h ↦ elim (Bool-cases s.is_readable) [
    | inr r ↦ unchanged (failure stream_not_readable) (ground arith)
    | inl r ↦ elim (lt_or_le s.maximum_window_size n) [
      | inl lt ↦ unchanged (failure stream_invalid_window_size) (ground arith)
      | inr le ↦ elim (lt_or_le n s.peers_window_size) [
        | inl lt ↦ unchanged (failure stream_invalid_window_size) (ground arith)
        | inr ge ↦ elim (lt_or_le s.peers_window_size n) [
          | inl more ↦ announced h r more le (ground arith)
          | inr same ↦ unchanged success (ground arith)
        ]
      ]
    ]
  ]
]

announced-StepSpec :
    (n m : ℕ) (cb : Option ℕ) (s : YamuxStream)
    → IsValid s
    → s.peers_window_size < n
    → n ≤ s.maximum_window_size
    → StepSpec
        (of_set cb)
        []
        s
        (ack_received_bytes m ∷ defer_set cb success, record s { peers_window_size = n })
announced-StepSpec n m cb s v lt le =
    let h = defer_set-StepSpec cb success s v in
    record {
      valid = record {
        queue = v.queue;
        buffer = v.buffer;
        closed = λ e k. record {
          not_readable = (v.closed e k).not_readable;
          not_writable = (v.closed e k).not_writable;
          no_reading = (v.closed e k).no_reading;
          no_messages = (v.closed e k).no_messages;
          no_unsent = (v.closed e k).no_unsent;
          no_close_cb = (v.closed e k).no_close_cb;
        };
        waiting = λ r k. record {
          nothing_read = (v.waiting r k).nothing_read;
          readable = (v.waiting r k).readable;
          room = (v.waiting r k).room;
        };
        within = λ k. omega (arith, v.within k);
        bound = le;
        finished = λ k. record {
          not_writable = (v.finished k).not_writable;
          no_unsent = (v.finished k).no_unsent;
        };
      };
      calls = h.calls;
      fin_once = h.fin_once;
      silent = h.silent;
      in_order = h.in_order;
    }

pub adjust_window_size-StepSpec :
    (n : ℕ) (cb : Option ℕ) (s : YamuxStream)
    → IsValid s
    → StepSpec (of_set cb) [] s (adjust_window_size n cb s)
adjust_window_size-StepSpec n cb s v = elim (adjust_cases n cb s) [
  | unchanged o e ↦ rw e (defer_set-StepSpec cb o s v)
  | announced h r lt le e ↦ rw e (announced-StepSpec n _ cb s v lt le)
]

-- The branches of `onDataReceived` behind the storing of the bytes.
pub after_closed :
    (n : ℕ) (s : YamuxStream) (e : Error)
    → s.close_reason ≡ some e
    → after_data n s ≡ (remove_stream_and_send_rst, [], s)
unfolding after_data
after_closed n s e h = ground arith

pub after_overflow :
    (n : ℕ) (s : YamuxStream)
    → s.close_reason ≡ none
    → s.peers_window_size < s.internal_read_buffer.total_size
    → after_data n s ≡ (
      remove_stream_and_send_rst,
      (do_close stream_receive_overflow s).0,
      (do_close stream_receive_overflow s).1,
    )
unfolding after_data
after_overflow n s h lt = ground arith

pub after_fits :
    (n : ℕ) (s : YamuxStream)
    → s.close_reason ≡ none
    → s.internal_read_buffer.total_size ≤ s.peers_window_size
    → after_data n s ≡ (keep_stream, if ltb 0 n then ack_received_bytes n ∷ [] else [], s)
unfolding after_data
after_fits n s h le = ground arith

-- The first bytes go to the reader that waits, the others to the buffer.
pub received_none :
    (bytes : List ℕ) (s : YamuxStream)
    → length bytes ≡ 0
    → on_data_received bytes s ≡ (keep_stream, [], s)
unfolding on_data_received
received_none [] s h = refl
received_none (b ∷ bs) s h = absurd (omega arith)

pub received_buffered :
    (bytes : List ℕ) (s : YamuxStream)
    → 0 < length bytes
    → s.reading ≡ none
    → on_data_received bytes s
      ≡ after_data 0 (record s { internal_read_buffer = add bytes s.internal_read_buffer })
unfolding on_data_received
received_buffered [] s pos h = absurd (omega arith)
received_buffered (b ∷ bs) s pos h = ground arith

abbrev pub to_reader :
    List ℕ → Pending → YamuxStream → DataFromConnectionResult × List Event × YamuxStream
to_reader bytes p s =
    after_data (length (add_and_consume bytes p.out s.internal_read_buffer).0)
      (with_buffer (add_and_consume bytes p.out s.internal_read_buffer).1 none s)

pub received_read :
    (bytes : List ℕ) (p : Pending) (s : YamuxStream)
    → 0 < length bytes
    → s.reading ≡ some p
    → on_data_received bytes s ≡ (
      (to_reader bytes p s).0,
      copy_out (add_and_consume bytes p.out s.internal_read_buffer).0 ∷ (to_reader bytes p s).1
          ++ call p.cb (size (length (add_and_consume bytes p.out s.internal_read_buffer).0)) ∷ [],
      (to_reader bytes p s).2,
    )
unfolding on_data_received
received_read [] p s pos h = absurd (omega arith)
received_read (b ∷ bs) p s pos h = ground arith

ack_none : (n : ℕ) → finished (if ltb 0 n then ack_received_bytes n ∷ [] else []) ≡ []
ack_none n = ground arith

ack_silent : (n : ℕ) → written (if ltb 0 n then ack_received_bytes n ∷ [] else []) ≡ []
ack_silent n = ground arith

ack_fins : (n : ℕ) → fins (if ltb 0 n then ack_received_bytes n ∷ [] else []) ≡ 0
ack_fins n = ground arith

stored-StepSpec :
    (b : ReadBuffer) (es : List Event) (s : YamuxStream)
    → IsValid s
    → s.reading ≡ none
    → BufferValid.IsValid b
    → (s.close_reason ≡ none → b.total_size ≤ s.peers_window_size)
    → finished es ≡ []
    → written es ≡ []
    → fins es ≡ 0
    → StepSpec [] [] s (es, with_buffer b none s)
stored-StepSpec b es s v k vb le e1 e2 e3 = record {
  valid = with_buffer-IsValid b none s v vb (λ e h. refl) (λ r h. cc) le;
  calls = λ c. rw (e1, k) (omega arith);
  fin_once = omega arith;
  silent = λ _. e2;
  in_order = late-none es e3;
}

-- Bytes in the buffer `b`, with no reader, before the limit is checked. The bytes `bs` are copied to
-- the reader `p` before it is called.
pub after-StepSpec :
    (n : ℕ) (b : ReadBuffer) (s : YamuxStream)
    → IsValid s
    → s.reading ≡ none
    → BufferValid.IsValid b
    → StepSpec [] [] s
        ((after_data n (with_buffer b none s)).1, (after_data n (with_buffer b none s)).2)
after-StepSpec n b s v k vb = elim (Option-cases s.close_reason) [
  | inr (e, h) ↦
      rw (after_closed n (with_buffer b none s) e h)
        (stored-StepSpec b [] s v k vb (λ l. cc) refl refl refl)
  | inl h ↦ elim (lt_or_le s.peers_window_size b.total_size) [
    | inl lt ↦
        let c = close_open-StepSpec stream_receive_overflow (with_buffer b none s) h vb v.bound in
        rw (after_overflow n (with_buffer b none s) h lt) (record {
          valid = c.valid;
          calls = λ i. omega (arith, c.calls i, ap (count i) (same_calls b));
          fin_once = c.fin_once;
          silent = c.silent;
          in_order = c.in_order;
        })
    | inr le ↦
        rw (after_fits n (with_buffer b none s) h le)
          (stored-StepSpec b _ s v k vb (λ _. le) (ack_none n) (ack_silent n) (ack_fins n))
  ]
]
  where
    same_calls : (c : ReadBuffer) → waiting_calls (with_buffer c none s) ≡ waiting_calls s
    same_calls c = rw k
