-- ===== src/Muxer/Yamux/Stream/Steps.antt =====
-- What every call of a stream keeps: the invariant, the callbacks, and the order of data and FIN.
use cpp_libp2p.Base.{
  ℕ, ◌+◌, ◌≤◌, ◌<◌, ◌≡◌, Bool-cases, refl, ap, ◌∙◌, Bool, true, false, none, some, List, [], ◌∷◌,
  ◌++◌, inl, inr, arith, All, Option-cases, count, count-append,
}
use cpp_libp2p.Basic.WriteQueue.{callbacks, clear}
use cpp_libp2p.Basic.WriteQueue.Fifo.{pending}
use cpp_libp2p.Basic.ReadBuffer.{clear_buffer}
use cpp_libp2p.Basic.ReadBuffer.Valid.{bytes_of}
use cpp_libp2p.Basic.ReadBuffer.Valid as BufferValid
use cpp_libp2p.Muxer.Yamux.Stream.{YamuxStream, Error, Event, do_close, call_all}
use cpp_libp2p.Muxer.Yamux.Stream.Events.{
  finished, fins, written, late, late-none, late-then, written-append, finished-append, fins-append,
}
use cpp_libp2p.Muxer.Yamux.Stream.Valid.{IsValid}
use cpp_libp2p.Muxer.Yamux.Stream.Closing.{
  waiting_calls, close_events, closed_stream, close_open, close_twice, closed_stream-IsValid,
  calls-close_events, IsCall, calls_only,
}

abbrev pub number : Bool → ℕ
number false = 0
number true = 1

-- A call that is given the callbacks `given`, and loses the callbacks `lost`, leads from `s` to `r`.
pub record StepSpec (given lost : List ℕ) (s : YamuxStream) (r : List Event × YamuxStream)
    : Type 0 where
  pub valid : IsValid r.1
  pub calls :
      (c : ℕ)
      → count c (finished r.0) + count c (waiting_calls r.1) + count c lost
        ≡ count c (waiting_calls s) + count c given
  pub fin_once : fins r.0 + number s.fin_sent ≡ number r.1.fin_sent
  pub silent : s.fin_sent ≡ true → written r.0 ≡ []
  pub in_order : late r.0 ≡ []

fin_stays :
    (s : YamuxStream) (r : List Event × YamuxStream)
    → fins r.0 + number s.fin_sent ≡ number r.1.fin_sent
    → s.fin_sent ≡ true
    → r.1.fin_sent ≡ true
fin_stays s r h e = ground arith

pub fin_now :
    (s : YamuxStream) (r : List Event × YamuxStream)
    → fins r.0 + number s.fin_sent ≡ number r.1.fin_sent
    → 0 < fins r.0
    → r.1.fin_sent ≡ true
fin_now s r h pos = elim (Bool-cases r.1.fin_sent) [
  | inl e ↦ e
  | inr e ↦ absurd (omega (arith, h, ap number e))
]

-- One call after the other.
pub StepSpec-then :
    (g1 g2 l1 l2 : List ℕ) (s : YamuxStream) (r1 r2 : List Event × YamuxStream)
    → StepSpec g1 l1 s r1
    → StepSpec g2 l2 r1.1 r2
    → StepSpec (g1 ++ g2) (l1 ++ l2) s (r1.0 ++ r2.0, r2.1)
StepSpec-then g1 g2 l1 l2 s r1 r2 h1 h2 = record {
  valid = h2.valid;
  calls = λ c. omega (
    arith,
    h1.calls c,
    h2.calls c,
    count-append c g1 g2,
    count-append c l1 l2,
    ap (count c) (finished-append r1.0 r2.0),
    count-append c (finished r1.0) (finished r2.0),
  );
  fin_once = omega (arith, h1.fin_once, h2.fin_once, fins-append r1.0 r2.0);
  silent =
      λ e. written-append r1.0 r2.0 ∙ (rw (h1.silent e, h2.silent (fin_stays s r1 h1.fin_once e)));
  in_order =
      late-then r1.0 r2.0 h1.in_order h2.in_order (λ pos. h2.silent (fin_now s r1 h1.fin_once pos));
}

fins-call_all : (cs : List ℕ) (e : Error) → fins (call_all cs e) ≡ 0
fins-call_all [] e = refl
fins-call_all (c ∷ cs) e = fins-call_all cs e

written-call_all : (cs : List ℕ) (e : Error) → written (call_all cs e) ≡ []
written-call_all [] e = refl
written-call_all (c ∷ cs) e = written-call_all cs e

pub fins-close_events : (e : Error) (s : YamuxStream) → fins (close_events e s) ≡ 0
fins-close_events e s = simp (fins-append, fins-call_all) (ground arith)

pub written-close_events : (e : Error) (s : YamuxStream) → written (close_events e s) ≡ []
written-close_events e s = simp (written-append, written-call_all) (ground arith)

no_calls-closed_stream : (e : Error) (s : YamuxStream) → waiting_calls (closed_stream e s) ≡ []
unfolding clear callbacks
no_calls-closed_stream e s = refl

-- On a closed stream `doClose` does nothing.
close_again :
    (e old : Error) (s : YamuxStream)
    → IsValid s
    → s.close_reason ≡ some old
    → do_close e s ≡ ([], s)
close_again e old s v h =
    let r = (v.closed old h).no_reading in close_twice e old s h ∙ (ground arith)

pub StepSpec-stays : (s : YamuxStream) → IsValid s → StepSpec [] [] s ([], s)
StepSpec-stays s v = record {
  valid = v;
  calls = λ c. omega arith;
  fin_once = omega arith;
  silent = λ _. refl;
  in_order = refl;
}

-- Closing needs less than the whole invariant.
pub close_open-StepSpec :
    (e : Error) (s : YamuxStream)
    → s.close_reason ≡ none
    → BufferValid.IsValid s.internal_read_buffer
    → s.peers_window_size ≤ s.maximum_window_size
    → StepSpec [] [] s (do_close e s)
close_open-StepSpec e s h vb le = rw (close_open e s h) (record {
  valid = closed_stream-IsValid e s vb le;
  calls = λ c.
      omega
        (arith, ap (count c) (calls-close_events e s), ap (count c) (no_calls-closed_stream e s));
  fin_once = omega (arith, fins-close_events e s);
  silent = λ _. written-close_events e s;
  in_order = late-none (close_events e s) (fins-close_events e s);
})

pub do_close-StepSpec : (e : Error) (s : YamuxStream) → IsValid s → StepSpec [] [] s (do_close e s)
do_close-StepSpec e s v = elim (Option-cases s.close_reason) [
  | inl h ↦ close_open-StepSpec e s h v.buffer v.bound
  | inr (old, h) ↦ rw (close_again e old s v h) (StepSpec-stays s v)
]

-- What `doClose` does to an open stream.
pub record Closes (ec : Error) (s : YamuxStream) (r : List Event × YamuxStream) : Type 0 where
  pub only_calls : All IsCall r.0
  pub calls : finished r.0 ≡ waiting_calls s
  pub none_waits : waiting_calls r.1 ≡ []
  pub nothing_pending : pending r.1.write_queue.queue ≡ []
  pub nothing_buffered : bytes_of r.1.internal_read_buffer ≡ []
  pub reason : r.1.close_reason ≡ some ec
  pub not_writable : r.1.is_writable ≡ false
  pub not_readable : r.1.is_readable ≡ false

pub record CloseSpec (ec : Error) (s : YamuxStream) (r : List Event × YamuxStream) : Type 0 where
  pub valid : IsValid r.1
  pub closes : s.close_reason ≡ none → Closes ec s r
  pub again : (e : Error) → s.close_reason ≡ some e → r ≡ ([], s)

nothing_kept :
    (ec : Error) (s : YamuxStream)
    → (pending (closed_stream ec s).write_queue.queue ≡ [])
      × (bytes_of (closed_stream ec s).internal_read_buffer ≡ [])
unfolding clear clear_buffer
nothing_kept ec s = (refl, refl)

-- `doClose` of an open stream calls each callback that waits exactly once, in the order of the write
-- callbacks, the window callback, the close callback and the reader, and does nothing else: no data,
-- no FIN and no reset is sent. No callback waits any more, what was buffered in either direction is
-- gone, the stream takes no reads and no writes, and it keeps the reason. A stream that is closed
-- already keeps its state and its reason, and nobody is called again. The stream keeps its invariant.
pub do_close_lem : (ec : Error) (s : YamuxStream) → IsValid s → CloseSpec ec s (do_close ec s)
do_close_lem ec s v = record {
  valid = (do_close-StepSpec ec s v).valid;
  closes = λ h. rw (close_open ec s h) (record {
    only_calls = calls_only ec s;
    calls = calls-close_events ec s;
    none_waits = no_calls-closed_stream ec s;
    nothing_pending = (nothing_kept ec s).0;
    nothing_buffered = (nothing_kept ec s).1;
    reason = refl;
    not_writable = refl;
    not_readable = refl;
  });
  again = λ e h. close_again ec e s v h;
}
