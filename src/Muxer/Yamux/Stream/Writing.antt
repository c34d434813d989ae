-- ===== src/Muxer/Yamux/Stream/Writing.antt =====
-- The loop of YamuxStream::doWrite: what it sends, and when it stops.
use cpp_libp2p.Base.{
  ℕ, zero, suc, ◌+◌, ◌<◌, ◌≡◌, refl, ap, ◌∙◌, sym, ◌⊎◌, inl, inr, none, List, [], ◌∷◌, ◌++◌,
  append_assoc, length, length-append, arith, zero_cases,
}
use cpp_libp2p.Basic.WriteQueue.{WriteQueue, dequeue, callbacks}
use cpp_libp2p.Basic.WriteQueue.Valid.{IsValid, dequeue-IsValid}
use cpp_libp2p.Basic.WriteQueue.Fifo.{pending, dequeue_lem, DequeueSpec}
use cpp_libp2p.Muxer.Yamux.Stream.{YamuxStream, Event, write_stream_data, write_loop}
use cpp_libp2p.Muxer.Yamux.Stream.Events.{written, finished, fins}

-- The stream with another window and another queue.
abbrev pub with_queue : ℕ → WriteQueue → YamuxStream → YamuxStream
with_queue w q s = record s { window_size = w; write_queue = q }

pub record LoopSpec (s : YamuxStream) (r : List Event × YamuxStream) : Type 0 where
  pub same : r.1 ≡ with_queue r.1.window_size r.1.write_queue s
  pub valid : IsValid r.1.write_queue
  pub stopped : (r.1.window_size ≡ 0) ⊎ (r.1.write_queue.total_unsent_size ≡ 0)
  pub fifo : pending s.write_queue.queue ≡ written r.0 ++ pending r.1.write_queue.queue
  pub window : r.1.window_size + length (written r.0) ≡ s.window_size
  pub total :
      r.1.write_queue.total_unsent_size + length (written r.0) ≡ s.write_queue.total_unsent_size
  pub calls : callbacks r.1.write_queue.queue ≡ callbacks s.write_queue.queue
  pub no_calls : finished r.0 ≡ []
  pub no_fins : fins r.0 ≡ 0

loop_last :
    (fuel w : ℕ) (q : WriteQueue) (s : YamuxStream)
    → s.close_reason ≡ none
    → dequeue s.window_size s.write_queue ≡ (w, [], q)
    → write_loop (suc fuel) s ≡ ([], with_queue w q s)
unfolding write_loop
loop_last fuel w q s e d = ground arith

loop_more :
    (fuel w b : ℕ) (bs : List ℕ) (q : WriteQueue) (s : YamuxStream)
    → s.close_reason ≡ none
    → dequeue s.window_size s.write_queue ≡ (w, b ∷ bs, q)
    → write_loop (suc fuel) s ≡ (
      write_stream_data (b ∷ bs) ∷ (write_loop fuel (with_queue w q s)).0,
      (write_loop fuel (with_queue w q s)).1,
    )
unfolding write_loop
loop_more fuel w b bs q s e d = ground arith

last_round :
    (fuel w : ℕ) (q : WriteQueue) (s : YamuxStream)
    → s.close_reason ≡ none
    → dequeue s.window_size s.write_queue ≡ (w, [], q)
    → DequeueSpec s.window_size s.write_queue (w, [], q)
    → IsValid q
    → LoopSpec s (write_loop (suc fuel) s)
last_round fuel w q s e run d v = rw (loop_last fuel w q s e run) (record {
  same = refl;
  valid = v;
  stopped = elim (zero_cases s.window_size) [
    | inl z ↦ inl (omega (arith, d.window))
    | inr pw ↦ elim (zero_cases s.write_queue.total_unsent_size) [
      | inl z ↦ inr (omega (arith, d.total))
      | inr pt ↦ absurd (omega (arith, d.progress pw pt))
    ]
  ];
  fifo = d.fifo;
  window = d.window;
  total = d.total;
  calls = d.calls;
  no_calls = refl;
  no_fins = refl;
})

more_round :
    (fuel w b : ℕ) (bs : List ℕ) (q : WriteQueue) (s : YamuxStream)
    → s.close_reason ≡ none
    → dequeue s.window_size s.write_queue ≡ (w, b ∷ bs, q)
    → DequeueSpec s.window_size s.write_queue (w, b ∷ bs, q)
    → LoopSpec (with_queue w q s) (write_loop fuel (with_queue w q s))
    → LoopSpec s (write_loop (suc fuel) s)
more_round fuel w b bs q s e run d h = rw (loop_more fuel w b bs q s e run) (record {
  same = h.same;
  valid = h.valid;
  stopped = h.stopped;
  fifo = d.fifo ∙ ap (◌++◌ (b ∷ bs)) h.fifo ∙ sym (append_assoc (b ∷ bs) _ _);
  window = omega (arith, d.window, h.window, length-append bs);
  total = omega (arith, d.total, h.total, length-append bs);
  calls = h.calls ∙ d.calls;
  no_calls = h.no_calls;
  no_fins = h.no_fins;
})

-- The loop sends the pending bytes in their order, as many as the window allows: it stops only when
-- the window is used up or nothing is left to send. The window shrinks by the number of bytes sent,
-- and no other part of the stream changes. More rounds than there are unsent bytes are enough.
pub write_loop_lem :
    (fuel : ℕ) (s : YamuxStream)
    → s.close_reason ≡ none
    → IsValid s.write_queue
    → s.write_queue.total_unsent_size < fuel
    → LoopSpec s (write_loop fuel s)
write_loop_lem zero s e v lt = absurd (omega arith)
write_loop_lem (suc fuel) s e v lt =
    go (dequeue s.window_size s.write_queue) refl (dequeue_lem s.window_size s.write_queue v)
      (dequeue-IsValid s.window_size s.write_queue v) (write_loop_lem fuel)
  where
    go :
        (r : ℕ × List ℕ × WriteQueue)
        → dequeue s.window_size s.write_queue ≡ r
        → DequeueSpec s.window_size s.write_queue r
        → IsValid r.2
        → ((t : YamuxStream)
            → t.close_reason ≡ none
            → IsValid t.write_queue
            → t.write_queue.total_unsent_size < fuel
            → LoopSpec t (write_loop fuel t))
        → LoopSpec s (write_loop (suc fuel) s)
    go (w, [], q) run d vq ih = last_round fuel w q s e run d vq
    go (w, b ∷ bs, q) run d vq ih =
        more_round fuel w b bs q s e run d (ih (with_queue w q s) e vq (omega (arith, d.total)))
