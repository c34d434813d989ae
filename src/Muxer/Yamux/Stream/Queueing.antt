-- ===== src/Muxer/Yamux/Stream/Queueing.antt =====
-- The calls of a stream that lead to `doWrite`: writeSome and close.
use cpp_libp2p.Base.{
  ℕ, ◌+◌, ◌≤◌, ◌<◌, ◌≡◌, refl, ap, ◌∙◌, ◌⊎◌, inl, inr, Bool, true, false, Bool-cases, Option, none,
  some, List, [], ◌∷◌, arith, Option-cases, length, lt_or_le, count, count-append,
}
use cpp_libp2p.Basic.WriteQueue.{can_enqueue, enqueue}
use cpp_libp2p.Basic.WriteQueue.Valid as QueueValid
use cpp_libp2p.Basic.WriteQueue.Fifo.{enqueue_lem}
use cpp_libp2p.Muxer.Yamux.Stream.{
  YamuxStream, Error, do_write, write_some, close, defer_set, Outcome, failure, defer_call,
  stream_not_writable, stream_write_overflow,
}
use cpp_libp2p.Muxer.Yamux.Stream.Valid.{IsValid}
use cpp_libp2p.Muxer.Yamux.Stream.Closing.{of_set}
use cpp_libp2p.Muxer.Yamux.Stream.Steps.{StepSpec, StepSpec-then, StepSpec-stays}
use cpp_libp2p.Muxer.Yamux.Stream.Writes.{do_write-StepSpec}

pub deferred-StepSpec :
    (c : ℕ) (o : Outcome) (s : YamuxStream)
    → IsValid s
    → StepSpec (c ∷ []) [] s (defer_call c o ∷ [], s)
deferred-StepSpec c o s v = record {
  valid = v;
  calls = λ k. omega arith;
  fin_once = omega arith;
  silent = λ _. refl;
  in_order = refl;
}

pub defer_set-StepSpec :
    (c : Option ℕ) (o : Outcome) (s : YamuxStream)
    → IsValid s
    → StepSpec (of_set c) [] s (defer_set c o, s)
defer_set-StepSpec none o s v = StepSpec-stays s v
defer_set-StepSpec (some c) o s v = deferred-StepSpec c o s v

-- A change of the stream, and then `doWrite`.
pub then_write :
    (given lost : List ℕ) (s t : YamuxStream)
    → StepSpec given lost s ([], t)
    → StepSpec given lost s (do_write t)
then_write given lost s t h =
    let r = StepSpec-then given [] lost [] s ([], t) (do_write t) h (do_write-StepSpec t h.valid) in
    record {
      valid = r.valid;
      calls = λ c. omega (arith, r.calls c, count-append c);
      fin_once = r.fin_once;
      silent = r.silent;
      in_order = r.in_order;
    }

-- The message is refused, or goes to the queue.
data Writes (bytes : List ℕ) (cb : ℕ) (s : YamuxStream) : Type 0 where
  refused : (o : Outcome) → write_some bytes cb s ≡ (defer_call cb o ∷ [], s) → Writes bytes cb s
  queued :
      0 < length bytes
      → s.is_writable ≡ true
      → length bytes + s.write_queue.total_unsent_size ≤ s.write_queue.size_limit
      → write_some bytes cb s
        ≡ do_write (record s { write_queue = enqueue bytes (some cb) s.write_queue })
      → Writes bytes cb s

write_cases : (bytes : List ℕ) (cb : ℕ) (s : YamuxStream) → Writes bytes cb s
unfolding write_some can_enqueue
write_cases [] cb s = refused _ refl
write_cases (b ∷ bs) cb s = elim (Bool-cases s.is_writable) [
  | inr h ↦ refused (failure stream_not_writable) (ground arith)
  | inl h ↦ elim (Option-cases s.close_reason) [
    | inr (e, k) ↦ refused (failure e) (ground arith)
    | inl k ↦
        elim (lt_or_le s.write_queue.size_limit
          (length (b ∷ bs) + s.write_queue.total_unsent_size)) [
            | inl lt ↦ refused (failure stream_write_overflow) (ground arith)
            | inr le ↦ queued (omega arith) h le (ground arith)
          ]
  ]
]

queued-StepSpec :
    (bytes : List ℕ) (cb : ℕ) (s : YamuxStream)
    → IsValid s
    → 0 < length bytes
    → s.is_writable ≡ true
    → length bytes + s.write_queue.total_unsent_size ≤ s.write_queue.size_limit
    → StepSpec (cb ∷ []) [] s ([], record s { write_queue = enqueue bytes (some cb) s.write_queue })
queued-StepSpec bytes cb s v pos h le = record {
  valid = record {
    queue = QueueValid.enqueue-IsValid bytes (some cb) s.write_queue pos le v.queue;
    buffer = v.buffer;
    closed = λ e k. absurd (true_not_false (v.closed e k).not_writable);
    waiting = λ p k. record {
      nothing_read = (v.waiting p k).nothing_read;
      readable = (v.waiting p k).readable;
      room = (v.waiting p k).room;
    };
    within = v.within;
    bound = v.bound;
    finished = λ k. absurd (true_not_false (v.finished k).not_writable);
  };
  calls = λ c. omega (arith, ap (count c) (enqueue_lem bytes cb s.write_queue).1, count-append c);
  fin_once = omega arith;
  silent = λ _. refl;
  in_order = refl;
}
  where
    true_not_false : s.is_writable ≡ false → ⊥
    true_not_false e = cc

pub write_some-StepSpec :
    (bytes : List ℕ) (cb : ℕ) (s : YamuxStream)
    → IsValid s
    → StepSpec (cb ∷ []) [] s (write_some bytes cb s)
write_some-StepSpec bytes cb s v = elim (write_cases bytes cb s) [
  | refused o e ↦ rw e (deferred-StepSpec cb o s v)
  | queued pos h le e ↦
      let q = queued-StepSpec bytes cb s v pos h le in rw e (then_write (cb ∷ []) [] s _ q)
]

-- The callback of `close` is kept in place of an older one.
closing_step :
    (cb : Option ℕ) (w : Bool) (s : YamuxStream)
    → IsValid s
    → s.close_reason ≡ none
    → (w ≡ s.is_writable) ⊎ (w ≡ false)
    → StepSpec (of_set cb) (of_set s.close_cb) s ([], record s { close_cb = cb; is_writable = w })
closing_step cb w s v h k = record {
  valid = record {
    queue = v.queue;
    buffer = v.buffer;
    closed = λ e k. cc;
    waiting = λ p k. record {
      nothing_read = (v.waiting p k).nothing_read;
      readable = (v.waiting p k).readable;
      room = (v.waiting p k).room;
    };
    within = v.within;
    bound = v.bound;
    finished = λ f. record {
      not_writable = now_false (v.finished f).not_writable;
      no_unsent = (v.finished f).no_unsent;
    };
  };
  calls = λ c. omega (arith, count-append c);
  fin_once = omega arith;
  silent = λ _. refl;
  in_order = refl;
}
  where
    now_false : s.is_writable ≡ false → w ≡ false
    now_false e = elim k [ inl a ↦ a ∙ e | inr b ↦ b ]

-- The callback that `close` overwrites, when the stream is open.
unfoldable pub overwritten : YamuxStream → List ℕ
overwritten s = elim s.close_reason [ none ↦ of_set s.close_cb | some e ↦ [] ]

overwritten_open : (s : YamuxStream) → s.close_reason ≡ none → overwritten s ≡ of_set s.close_cb
unfolding overwritten
overwritten_open s h = ground arith

overwritten_closed : (s : YamuxStream) (e : Error) → s.close_reason ≡ some e → overwritten s ≡ []
unfolding overwritten
overwritten_closed s e h = ground arith

close_open_stream :
    (cb : Option ℕ) (s : YamuxStream)
    → s.close_reason ≡ none
    → s.is_writable ≡ true
    → close cb s ≡ do_write (record s { close_cb = cb; is_writable = false })
unfolding close
close_open_stream cb s h w = ground arith

close_half_stream :
    (cb : Option ℕ) (s : YamuxStream)
    → s.close_reason ≡ none
    → s.is_writable ≡ false
    → close cb s ≡ ([], record s { close_cb = cb; is_writable = false })
unfolding close
close_half_stream cb s h w = ground arith

close_closed_stream :
    (cb : Option ℕ) (s : YamuxStream) (e : Error)
    → s.close_reason ≡ some e
    → close cb s ≡ (defer_set cb (failure e), s)
unfolding close
close_closed_stream cb s e h = ground arith

pub close-StepSpec :
    (cb : Option ℕ) (s : YamuxStream)
    → IsValid s
    → StepSpec (of_set cb) (overwritten s) s (close cb s)
close-StepSpec cb s v = elim (Option-cases s.close_reason) [
  | inr (e, h) ↦
      rw (close_closed_stream cb s e h, overwritten_closed s e h)
        (defer_set-StepSpec cb (failure e) s v)
  | inl h ↦ rw (overwritten_open s h) (elim (Bool-cases s.is_writable) [
    | inl w ↦
        let first = closing_step cb false s v h (inr refl) in
        rw (close_open_stream cb s h w) (then_write (of_set cb) (of_set s.close_cb) s _ first)
    | inr w ↦ rw (close_half_stream cb s h w) (closing_step cb false s v h (inr refl))
  ])
]
