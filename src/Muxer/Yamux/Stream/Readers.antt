-- ===== src/Muxer/Yamux/Stream/Readers.antt =====
-- A reader that waits is taken and called: onDataReceived, onFINReceived, and the bytes it gets.
use cpp_libp2p.Base.{
  ℕ, ◌≡◌, refl, sym, ap, ◌∙◌, subst, inl, inr, true, false, Bool-cases, none, some, List, [], ◌∷◌,
  ◌++◌, append-nil, arith, Option-cases, length, zero_cases, count, count-append,
}
use cpp_libp2p.Basic.ReadBuffer.{add}
use cpp_libp2p.Basic.ReadBuffer.Adding.{add_lem}
use cpp_libp2p.Basic.ReadBuffer.AddConsume.{add_and_consume_lem}
use cpp_libp2p.Muxer.Yamux.Stream.{
  YamuxStream, Error, Event, Pending, copy_out, call, stream_closed_by_host, do_close, after_data,
  on_data_received, on_fin_received, finally_reading, Outcome, failure, keep_stream, remove_stream,
  remove_stream_and_send_rst,
}
use cpp_libp2p.Muxer.Yamux.Stream.Events.{
  written, late-quiet, finished-append, fins-append, written-append,
}
use cpp_libp2p.Muxer.Yamux.Stream.Valid.{IsValid}
use cpp_libp2p.Muxer.Yamux.Stream.Closing.{of_reading}
use cpp_libp2p.Muxer.Yamux.Stream.Steps.{StepSpec, StepSpec-then, StepSpec-stays, do_close-StepSpec}
use cpp_libp2p.Muxer.Yamux.Stream.Reads.{with_buffer, with_buffer-IsValid}
use cpp_libp2p.Muxer.Yamux.Stream.Receiving.{
  after-StepSpec, received_none, received_buffered, received_read,
}

-- The stream without its reader.
abbrev pub taken : YamuxStream → YamuxStream
taken s = record s { reading = none }

taken-IsValid : (s : YamuxStream) → IsValid s → IsValid (taken s)
taken-IsValid s v =
    with_buffer-IsValid s.internal_read_buffer none s v v.buffer (λ e h. refl) (λ r h. cc) v.within

-- The reader is called when the rest is done.
then_called :
    (p : Pending) (o : Outcome) (es : List Event) (s t : YamuxStream)
    → s.reading ≡ some p
    → StepSpec [] [] (taken s) (es, t)
    → StepSpec [] [] s (es ++ call p.cb o ∷ [], t)
then_called p o es s t k h = record {
  valid = h.valid;
  calls = λ c. omega (
    arith,
    h.calls c,
    ap (count c) (finished-append es (call p.cb o ∷ [])),
    count-append c,
    ap (λ r. count c (of_reading r)) k,
  );
  fin_once = omega (arith, h.fin_once, fins-append es (call p.cb o ∷ []));
  silent = λ e. written-append es (call p.cb o ∷ []) ∙ append-nil (written es) ∙ h.silent e;
  in_order = late-quiet es (call p.cb o ∷ []) h.in_order refl;
}

then_finally :
    (o : Outcome) (es : List Event) (s t : YamuxStream)
    → StepSpec [] [] (taken s) (es, t)
    → StepSpec [] [] s (es ++ finally_reading s.reading o, t)
then_finally o es s t h = elim (Option-cases s.reading) [
  | inr (p, k) ↦
      subst (λ r. StepSpec [] [] s (es ++ finally_reading r o, t)) (sym k)
        (then_called p o es s t k h)
  | inl k ↦
      rw (k, append-nil es)
        (record {
          valid = h.valid;
          calls = λ c. omega (arith, h.calls c, ap (λ r. count c (of_reading r)) k, count-append c);
          fin_once = h.fin_once;
          silent = h.silent;
          in_order = h.in_order;
        })
]

copied-StepSpec :
    (bs : List ℕ) (es : List Event) (s t : YamuxStream)
    → StepSpec [] [] s (es, t)
    → StepSpec [] [] s (copy_out bs ∷ es, t)
copied-StepSpec bs es s t h = record {
  valid = h.valid;
  calls = h.calls;
  fin_once = h.fin_once;
  silent = h.silent;
  in_order = h.in_order;
}

pub on_data_received-StepSpec :
    (bytes : List ℕ) (s : YamuxStream)
    → IsValid s
    → StepSpec [] [] s ((on_data_received bytes s).1, (on_data_received bytes s).2)
on_data_received-StepSpec bytes s v = elim (zero_cases (length bytes)) [
  | inl z ↦ rw (received_none bytes s z) (StepSpec-stays s v)
  | inr pos ↦ elim (Option-cases s.reading) [
    | inl k ↦
        let a = add_lem bytes s.internal_read_buffer v.buffer in
        rw (received_buffered bytes s pos k) (
          subst (λ r. StepSpec [] [] s ((after_data 0 r).1, (after_data 0 r).2)) (same k)
            (after-StepSpec 0 (add bytes s.internal_read_buffer) s v k a.valid))
    | inr (p, k) ↦
        let a = add_and_consume_lem bytes p.out s.internal_read_buffer v.buffer in
        rw (received_read bytes p s pos k) (
          copied-StepSpec _ _ s _ (
            then_called p _ _ s _ k
              (after-StepSpec _ _ (taken s) (taken-IsValid s v) refl a.valid)))
  ]
]
  where
    same :
        s.reading ≡ none
        → with_buffer (add bytes s.internal_read_buffer) none s
          ≡ record s { internal_read_buffer = add bytes s.internal_read_buffer }
    same k = rw k

-- The branches of `onFINReceived`.
abbrev pub half_closed : YamuxStream → YamuxStream
half_closed s = record s { reading = none; is_readable = false }

abbrev pub fin_answer : YamuxStream → List Event
fin_answer s = finally_reading s.reading (failure stream_closed_by_host)

pub fin_closed :
    (s : YamuxStream) (e : Error)
    → s.close_reason ≡ some e
    → on_fin_received s ≡ (remove_stream_and_send_rst, fin_answer s, taken s)
unfolding on_fin_received
fin_closed s e h = ground arith

pub fin_both :
    (s : YamuxStream)
    → s.close_reason ≡ none
    → s.is_writable ≡ false
    → on_fin_received s ≡ (
      remove_stream,
      (do_close stream_closed_by_host (half_closed s)).0 ++ fin_answer s,
      (do_close stream_closed_by_host (half_closed s)).1,
    )
unfolding on_fin_received
fin_both s h w = ground arith

pub fin_half :
    (s : YamuxStream)
    → s.close_reason ≡ none
    → s.is_writable ≡ true
    → on_fin_received s ≡ (keep_stream, fin_answer s, half_closed s)
unfolding on_fin_received
fin_half s h w = ground arith

pub half_closed-StepSpec :
    (s : YamuxStream)
    → IsValid s
    → s.close_reason ≡ none
    → StepSpec [] [] (taken s) ([], half_closed s)
half_closed-StepSpec s v h = record {
  valid = record {
    queue = v.queue;
    buffer = v.buffer;
    closed = λ e k. cc;
    waiting = λ r k. cc;
    within = v.within;
    bound = v.bound;
    finished = λ k. record {
      not_writable = (v.finished k).not_writable;
      no_unsent = (v.finished k).no_unsent;
    };
  };
  calls = λ c. omega arith;
  fin_once = omega arith;
  silent = λ _. refl;
  in_order = refl;
}

pub on_fin_received-StepSpec :
    (s : YamuxStream) → IsValid s → StepSpec [] [] s ((on_fin_received s).1, (on_fin_received s).2)
on_fin_received-StepSpec s v = elim (Option-cases s.close_reason) [
  | inr (e, h) ↦
      rw (fin_closed s e h)
        (then_finally _ [] s (taken s) (StepSpec-stays (taken s) (taken-IsValid s v)))
  | inl h ↦
      let half = half_closed-StepSpec s v h in
      elim (Bool-cases s.is_writable) [
        | inl w ↦ rw (fin_half s h w) (then_finally _ [] s (half_closed s) half)
        | inr w ↦ rw (fin_both s h w) (
            then_finally _ _ s _ (
              StepSpec-then [] [] [] [] (taken s) ([], half_closed s) _ half
                (do_close-StepSpec stream_closed_by_host (half_closed s) half.valid)))
      ]
]
