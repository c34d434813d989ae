-- ===== src/Muxer/Yamux/Stream/Writes.antt =====
-- The calls of a stream that send: doWrite, writeSome, close, increaseSendWindow, onDataWritten.
use cpp_libp2p.Base.{
  ℕ, suc, ◌≤◌, ◌<◌, ◌≡◌, refl, sym, ap, ◌∙◌, subst, ◌⊎◌, inl, inr, true, false, Bool-cases, none,
  some, List, [], ◌∷◌, ◌++◌, arith, Option-cases, if◌then◌else◌, length_zero, zero_cases, count,
}
use cpp_libp2p.Basic.WriteQueue.{WriteQueue}
use cpp_libp2p.Basic.WriteQueue.Valid as QueueValid
use cpp_libp2p.Muxer.Yamux.Stream.{
  YamuxStream, Error, Event, stream_closed_by_host, stream_closed, do_close, write_loop,
  finish_write, do_write,
}
use cpp_libp2p.Muxer.Yamux.Stream.Events.{written, late-none}
use cpp_libp2p.Muxer.Yamux.Stream.Valid.{IsValid}
use cpp_libp2p.Muxer.Yamux.Stream.Writing.{LoopSpec, write_loop_lem, with_queue}
use cpp_libp2p.Muxer.Yamux.Stream.Closing.{waiting_calls}
use cpp_libp2p.Muxer.Yamux.Stream.Steps.{
  StepSpec, StepSpec-then, StepSpec-stays, do_close-StepSpec, number,
}

abbrev pub write_rounds : YamuxStream → List Event × YamuxStream
write_rounds s = write_loop (suc s.write_queue.total_unsent_size) s

with_queue-IsValid :
    (w : ℕ) (q : WriteQueue) (s : YamuxStream)
    → IsValid s
    → s.close_reason ≡ none
    → QueueValid.IsValid q
    → (s.write_queue.total_unsent_size ≡ 0 → q.total_unsent_size ≡ 0)
    → IsValid (with_queue w q s)
with_queue-IsValid w q s v h vq z = record {
  queue = vq;
  buffer = v.buffer;
  closed = λ e k. cc;
  waiting = λ p k. record {
    nothing_read = (v.waiting p k).nothing_read;
    readable = (v.waiting p k).readable;
    room = (v.waiting p k).room;
  };
  within = v.within;
  bound = v.bound;
  finished = λ k. record {
    not_writable = (v.finished k).not_writable;
    no_unsent = z (v.finished k).no_unsent;
  };
}

LoopSpec-StepSpec :
    (s : YamuxStream) (r : List Event × YamuxStream)
    → IsValid s
    → s.close_reason ≡ none
    → LoopSpec s r
    → StepSpec [] [] s r
LoopSpec-StepSpec s r v h l =
    let vs : IsValid r.1 = subst IsValid (sym l.same) (
      with_queue-IsValid r.1.window_size r.1.write_queue s v h l.valid
        (λ z. omega (arith, l.total))) in
    record {
      valid = vs;
      calls = λ c. omega (arith, ap (count c) l.no_calls, ap (count c) (same_calls l));
      fin_once = omega (arith, l.no_fins, ap (λ t. number t.fin_sent) l.same);
      silent = λ k. length_zero (written r.0) (omega (arith, l.total, (v.finished k).no_unsent));
      in_order = late-none r.0 l.no_fins;
    }
  where
    same_calls : LoopSpec s r → waiting_calls r.1 ≡ waiting_calls s
    same_calls l = ap waiting_calls l.same ∙ (rw l.calls)

-- Sending the FIN frame, once.
abbrev fin_events : YamuxStream → List Event
fin_events s = if s.fin_sent then [] else stream_closed ∷ []

-- What is behind the loop, by its three branches.
finish_no :
    (s : YamuxStream) → (s.is_writable ≡ true) ⊎ (s.window_size ≡ 0) → finish_write s ≡ ([], s)
unfolding finish_write
finish_no s h = ground arith

finish_half :
    (s : YamuxStream)
    → s.is_writable ≡ false
    → s.close_reason ≡ none
    → 0 < s.window_size
    → s.is_readable ≡ true
    → finish_write s
      ≡ (fin_events s, record s { fin_sent = true; peers_window_size = s.maximum_window_size })
unfolding finish_write
finish_half s h1 h2 h3 h4 = ground arith

finish_whole :
    (s : YamuxStream)
    → s.is_writable ≡ false
    → s.close_reason ≡ none
    → 0 < s.window_size
    → s.is_readable ≡ false
    → finish_write s ≡ (
      fin_events s ++ (do_close stream_closed_by_host (record s { fin_sent = true })).0,
      (do_close stream_closed_by_host (record s { fin_sent = true })).1,
    )
unfolding finish_write
finish_whole s h1 h2 h3 h4 = ground arith

finish_closed : (s : YamuxStream) (e : Error) → s.close_reason ≡ some e → finish_write s ≡ ([], s)
unfolding finish_write
finish_closed s e h = ground arith

-- The FIN frame, and a window of `n` for the peer.
fin_step :
    (n : ℕ) (s : YamuxStream)
    → IsValid s
    → s.is_writable ≡ false
    → s.write_queue.total_unsent_size ≡ 0
    → s.peers_window_size ≤ n
    → n ≤ s.maximum_window_size
    → StepSpec [] [] s (fin_events s, record s { fin_sent = true; peers_window_size = n })
fin_step n s v h z ge le = record {
  valid = record {
    queue = v.queue;
    buffer = v.buffer;
    closed = λ e k. record {
      not_readable = (v.closed e k).not_readable;
      not_writable = (v.closed e k).not_writable;
      no_reading = (v.closed e k).no_reading;
      no_messages = (v.closed e k).no_messages;
      no_unsent = (v.closed e k).no_unsent;
      no_close_cb = (v.closed e k).no_close_cb;
    };
    waiting = λ p k. record {
      nothing_read = (v.waiting p k).nothing_read;
      readable = (v.waiting p k).readable;
      room = (v.waiting p k).room;
    };
    within = λ k. omega (arith, v.within k);
    bound = le;
    finished = λ _. record { not_writable = h; no_unsent = z };
  };
  calls = λ c. ground arith;
  fin_once = ground arith;
  silent = λ k. ground arith;
  in_order = ground arith;
}

finish-StepSpec :
    (s : YamuxStream)
    → IsValid s
    → (s.window_size ≡ 0) ⊎ (s.write_queue.total_unsent_size ≡ 0)
    → StepSpec [] [] s (finish_write s)
finish-StepSpec s v stopped = elim (Option-cases s.close_reason) [
  | inr (e, h) ↦ rw (finish_closed s e h) (StepSpec-stays s v)
  | inl h ↦ elim (zero_cases s.window_size) [
    | inl z ↦ rw (finish_no s (inr z)) (StepSpec-stays s v)
    | inr pos ↦
        let z : s.write_queue.total_unsent_size ≡ 0 = omega (arith, stopped) in
        elim (Bool-cases s.is_writable) [
          | inl w ↦ rw (finish_no s (inl w)) (StepSpec-stays s v)
          | inr w ↦ elim (Bool-cases s.is_readable) [
            | inl r ↦
                rw (finish_half s w h pos r)
                  (fin_step s.maximum_window_size s v w z v.bound (omega arith))
            | inr r ↦ rw (finish_whole s w h pos r) (
                StepSpec-then [] [] [] [] s (fin_events s, record s { fin_sent = true }) _
                  (fin_step s.peers_window_size s v w z (omega arith) v.bound)
                  (do_close-StepSpec stream_closed_by_host (record s { fin_sent = true })
                    (fin_step s.peers_window_size s v w z (omega arith) v.bound).valid))
          ]
        ]
  ]
]

loop_closed :
    (fuel : ℕ) (s : YamuxStream) (e : Error)
    → s.close_reason ≡ some e
    → write_loop (suc fuel) s ≡ ([], s)
unfolding write_loop
loop_closed fuel s e h = ground arith

do_write_eq :
    (s : YamuxStream)
    → do_write s ≡ (
      (write_rounds s).0 ++ (finish_write (write_rounds s).1).0,
      (finish_write (write_rounds s).1).1,
    )
unfolding do_write
do_write_eq s = refl

pub do_write-StepSpec : (s : YamuxStream) → IsValid s → StepSpec [] [] s (do_write s)
do_write-StepSpec s v = elim (Option-cases s.close_reason) [
  | inr (e, h) ↦
      rw (do_write_eq s, loop_closed s.write_queue.total_unsent_size s e h, finish_closed s e h)
        (StepSpec-stays s v)
  | inl h ↦
      let l : LoopSpec s (write_rounds s) = write_loop_lem _ s h v.queue (omega arith) in
      let first = LoopSpec-StepSpec s (write_rounds s) v h l in
      rw (do_write_eq s) (
        StepSpec-then [] [] [] [] s (write_rounds s) (finish_write (write_rounds s).1) first
          (finish-StepSpec (write_rounds s).1 first.valid l.stopped))
]
