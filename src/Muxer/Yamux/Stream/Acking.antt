-- ===== src/Muxer/Yamux/Stream/Acking.antt =====
-- What the connection tells a stream of its writing: increaseSendWindow and onDataWritten.
use cpp_libp2p.Base.{
  ℕ, ◌+◌, ◌%◌, ◌^◌, ◌<◌, ◌≡◌, refl, ap, ◌∙◌, inl, inr, true, Option, none, some, List, [], ◌∷◌,
  ◌++◌, arith, Option-cases, zero_cases, count, count-append,
}
use cpp_libp2p.Basic.WriteQueue.{
  WriteQueue, Data, AckResult, inconsistent, callbacks, ack_data_sent,
}
use cpp_libp2p.Basic.WriteQueue.Valid as QueueValid
use cpp_libp2p.Basic.WriteQueue.Acks.{
  ack_data_sent-IsValid, ack_cases, refused as ack_refused, partial, complete,
}
use cpp_libp2p.Basic.WriteQueue.Fifo.{ack_data_sent_lem, called}
use cpp_libp2p.Muxer.Yamux.Stream.{
  YamuxStream, Error, do_close, do_write, increase_send_window, on_data_written, call_set,
  reset_stream, Outcome, size, stream_internal_error,
}
use cpp_libp2p.Muxer.Yamux.Stream.Events.{finished, written, fins, late}
use cpp_libp2p.Muxer.Yamux.Stream.Valid.{IsValid}
use cpp_libp2p.Muxer.Yamux.Stream.Steps.{StepSpec, StepSpec-stays, do_close-StepSpec, number}
use cpp_libp2p.Muxer.Yamux.Stream.Queueing.{then_write}

increase_eq :
    (delta : ℕ) (s : YamuxStream)
    → 0 < delta
    → increase_send_window delta s
      ≡ do_write (record s { window_size = (s.window_size + delta) % 2 ^ 64 })
unfolding increase_send_window
increase_eq delta s pos = ground arith

increase_zero : (delta : ℕ) (s : YamuxStream) → delta ≡ 0 → increase_send_window delta s ≡ ([], s)
unfolding increase_send_window
increase_zero delta s z = ground arith

pub window-StepSpec :
    (w : ℕ) (s : YamuxStream) → IsValid s → StepSpec [] [] s ([], record s { window_size = w })
window-StepSpec w s v = record {
  valid = record {
    queue = v.queue;
    buffer = v.buffer;
    closed = λ e k. record {
      not_readable = (v.closed e k).not_readable;
      not_writable = (v.closed e k).not_writable;
      no_reading = (v.closed e k).no_reading;
      no_messages = (v.closed e k).no_messages;
      no_unsent = (v.closed e k).no_unsent;
      no_close_cb = (v.closed e k).no_close_cb;
    };
    waiting = λ p k. record {
      nothing_read = (v.waiting p k).nothing_read;
      readable = (v.waiting p k).readable;
      room = (v.waiting p k).room;
    };
    within = v.within;
    bound = v.bound;
    finished = λ k. record {
      not_writable = (v.finished k).not_writable;
      no_unsent = (v.finished k).no_unsent;
    };
  };
  calls = λ c. omega arith;
  fin_once = omega arith;
  silent = λ _. refl;
  in_order = refl;
}

pub increase_send_window-StepSpec :
    (delta : ℕ) (s : YamuxStream) → IsValid s → StepSpec [] [] s (increase_send_window delta s)
increase_send_window-StepSpec delta s v = elim (zero_cases delta) [
  | inl z ↦ rw (increase_zero delta s z) (StepSpec-stays s v)
  | inr pos ↦
      let first = window-StepSpec ((s.window_size + delta) % 2 ^ 64) s v in
      rw (increase_eq delta s pos)
        (then_write [] [] s (record s { window_size = (s.window_size + delta) % 2 ^ 64 }) first)
]

taken-StepSpec :
    (cb : Option ℕ) (o : Outcome) (q : WriteQueue) (s : YamuxStream)
    → IsValid s
    → (s.close_reason ≡ none)
    → QueueValid.IsValid q
    → q.total_unsent_size ≡ s.write_queue.total_unsent_size
    → callbacks s.write_queue.queue ≡ called cb ++ callbacks q.queue
    → StepSpec [] [] s (call_set cb o, record s { write_queue = q })
taken-StepSpec cb o q s v h vq t k = record {
  valid = record {
    queue = vq;
    buffer = v.buffer;
    closed = λ e l. cc;
    waiting = λ p l. record {
      nothing_read = (v.waiting p l).nothing_read;
      readable = (v.waiting p l).readable;
      room = (v.waiting p l).room;
    };
    within = v.within;
    bound = v.bound;
    finished = λ l. record {
      not_writable = (v.finished l).not_writable;
      no_unsent = t ∙ (v.finished l).no_unsent;
    };
  };
  calls = λ c. omega (arith, ap (count c) k, count-append c, finished_one c cb);
  fin_once = no_fins cb;
  silent = λ _. no_data cb;
  in_order = in_place cb;
}
  where
    finished_one : (c : ℕ) (d : Option ℕ) → count c (finished (call_set d o)) ≡ count c (called d)
    finished_one c none = refl
    finished_one c (some d) = refl

    no_fins : (d : Option ℕ) → fins (call_set d o) + number s.fin_sent ≡ number s.fin_sent
    no_fins none = omega arith
    no_fins (some d) = omega arith

    no_data : (d : Option ℕ) → written (call_set d o) ≡ []
    no_data none = refl
    no_data (some d) = refl

    in_place : (d : Option ℕ) → late (call_set d o) ≡ []
    in_place none = refl
    in_place (some d) = refl

written_taken :
    (n : ℕ) (r : AckResult) (q : WriteQueue) (s : YamuxStream)
    → ack_data_sent n s.write_queue ≡ (r, q)
    → r.data_consistent ≡ true
    → on_data_written n s ≡ (call_set r.cb (size r.size_to_ack), record s { write_queue = q })
unfolding on_data_written
written_taken n r q s e k = ground arith

written_refused :
    (n : ℕ) (s : YamuxStream)
    → ack_data_sent n s.write_queue ≡ (inconsistent, s.write_queue)
    → on_data_written n s
      ≡ (reset_stream ∷ (do_close stream_internal_error s).0, (do_close stream_internal_error s).1)
unfolding on_data_written
written_refused n s e = ground arith

pub reset-StepSpec :
    (e : Error) (s : YamuxStream)
    → IsValid s
    → StepSpec [] [] s (reset_stream ∷ (do_close e s).0, (do_close e s).1)
reset-StepSpec e s v =
    let h = do_close-StepSpec e s v in
    record {
      valid = h.valid;
      calls = h.calls;
      fin_once = h.fin_once;
      silent = h.silent;
      in_order = h.in_order;
    }

still_open :
    (s : YamuxStream) (d : Data) (rest : List Data)
    → IsValid s
    → s.write_queue.queue ≡ d ∷ rest
    → s.close_reason ≡ none
still_open s d rest v at = elim (Option-cases s.close_reason) [
  | inl h ↦ h
  | inr (e, h) ↦ let q = (v.closed e h).no_messages in cc
]

pub on_data_written-StepSpec :
    (n : ℕ) (s : YamuxStream) → IsValid s → StepSpec [] [] s (on_data_written n s)
on_data_written-StepSpec n s v =
    let spec = ack_data_sent_lem n s.write_queue v.queue in
    let vq = ack_data_sent-IsValid n s.write_queue v.queue in
    elim (ack_cases n s.write_queue v.queue) [
      | ack_refused why e ↦ rw (written_refused n s e) (reset-StepSpec stream_internal_error s v)
      | partial d rest at pos le lt e ↦ rw (written_taken n _ _ s e refl) (
          taken-StepSpec none (size 0) _ s v (still_open s d rest v at) (rw e at vq) refl
            (rw e at spec.calls))
      | complete d rest k at act t items pos eq e ↦ rw (written_taken n _ _ s e refl) (
          taken-StepSpec d.cb _ _ s v (still_open s d rest v at) (rw e at vq) refl
            (rw e at spec.calls))
    ]
