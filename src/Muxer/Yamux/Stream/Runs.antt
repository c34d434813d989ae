-- ===== src/Muxer/Yamux/Stream/Runs.antt =====
-- Any call of a stream, and any sequence of calls.
use cpp_libp2p.Base.{
  ℕ, ◌+◌, ◌≤◌, ◌≡◌, refl, ap, Bool, true, false, List, [], ◌∷◌, arith, Option-cases, inl, inr, none,
  some, ◌∙◌,
}
use cpp_libp2p.Muxer.Yamux.Stream.{
  YamuxStream, Event, Error, Call, do_write_some, do_read_some, do_close_write, do_reset,
  do_adjust_window_size, do_increase_send_window, data_received, fin_received, rst_received,
  data_written, connection_closed, step, run, reset, on_rst_received, do_close,
  stream_reset_by_host, stream_reset_by_peer,
}
use cpp_libp2p.Muxer.Yamux.Stream.Events.{
  fins, written, late, late-then, fins-append, written-append,
}
use cpp_libp2p.Muxer.Yamux.Stream.Valid.{IsValid}
use cpp_libp2p.Muxer.Yamux.Stream.Closing.{of_set}
use cpp_libp2p.Muxer.Yamux.Stream.Steps.{
  StepSpec, StepSpec-stays, do_close-StepSpec, number, fin_now,
}
use cpp_libp2p.Muxer.Yamux.Stream.Queueing.{write_some-StepSpec, close-StepSpec, overwritten}
use cpp_libp2p.Muxer.Yamux.Stream.Acking.{
  increase_send_window-StepSpec, on_data_written-StepSpec, reset-StepSpec,
}
use cpp_libp2p.Muxer.Yamux.Stream.Reads.{read_some-StepSpec, second_reader}
use cpp_libp2p.Muxer.Yamux.Stream.Receiving.{adjust_window_size-StepSpec}
use cpp_libp2p.Muxer.Yamux.Stream.Readers.{on_data_received-StepSpec, on_fin_received-StepSpec}

-- The callbacks that a call brings.
abbrev pub brought : Call → List ℕ
brought (do_write_some bytes cb) = cb ∷ []
brought (do_read_some out cb) = cb ∷ []
brought (do_close_write cb) = of_set cb
brought (do_adjust_window_size n cb) = of_set cb
brought _ = []

-- The callbacks that are never called: of a `close` before this one on an open stream, and of a
-- reader that comes while another one waits.
abbrev pub dropped : Call → YamuxStream → List ℕ
dropped (do_close_write cb) s = overwritten s
dropped (do_read_some out cb) s = second_reader out cb s
dropped _ s = []

rst_open :
    (s : YamuxStream) → s.close_reason ≡ none → on_rst_received s ≡ do_close stream_reset_by_peer s
unfolding on_rst_received
rst_open s h = ground arith

rst_closed : (s : YamuxStream) (e : Error) → s.close_reason ≡ some e → on_rst_received s ≡ ([], s)
unfolding on_rst_received
rst_closed s e h = ground arith

rst_step : (s : YamuxStream) → IsValid s → StepSpec [] [] s (on_rst_received s)
rst_step s v = elim (Option-cases s.close_reason) [
  | inl h ↦ rw (rst_open s h) (do_close-StepSpec stream_reset_by_peer s v)
  | inr (e, h) ↦ rw (rst_closed s e h) (StepSpec-stays s v)
]

reset_step : (s : YamuxStream) → IsValid s → StepSpec [] [] s (reset s)
unfolding reset
reset_step s v = reset-StepSpec stream_reset_by_host s v

-- Every call of a stream keeps the invariant. Each callback that waited or is brought by the call is
-- called once, or waits still once, or is dropped: that of an older `close`, when a second one
-- comes, and that of a second reader. The FIN frame is sent only if it was not sent before, and
-- no data goes behind it, in the same call or in a later one.
pub step_lem :
    (call : Call) (s : YamuxStream)
    → IsValid s
    → StepSpec (brought call) (dropped call s) s (step call s)
unfolding step
step_lem (do_write_some bytes cb) s v = write_some-StepSpec bytes cb s v
step_lem (do_read_some out cb) s v = read_some-StepSpec out cb s v
step_lem (do_close_write cb) s v = close-StepSpec cb s v
step_lem do_reset s v = reset_step s v
step_lem (do_adjust_window_size n cb) s v = adjust_window_size-StepSpec n cb s v
step_lem (do_increase_send_window delta) s v = increase_send_window-StepSpec delta s v
step_lem (data_received bytes) s v = on_data_received-StepSpec bytes s v
step_lem fin_received s v = on_fin_received-StepSpec s v
step_lem rst_received s v = rst_step s v
step_lem (data_written n) s v = on_data_written-StepSpec n s v
step_lem (connection_closed e) s v = do_close-StepSpec e s v

pub record RunSpec (s : YamuxStream) (r : List Event × YamuxStream) : Type 0 where
  pub valid : IsValid r.1
  pub fin_once : fins r.0 + number s.fin_sent ≡ number r.1.fin_sent
  pub silent : s.fin_sent ≡ true → written r.0 ≡ []
  pub in_order : late r.0 ≡ []

number-le : (b : Bool) → number b ≤ 1
number-le true = omega arith
number-le false = omega arith

run_lem : (calls : List Call) (s : YamuxStream) → IsValid s → RunSpec s (run calls s)
unfolding run
run_lem [] s v = record { valid = v; fin_once = omega arith; silent = λ _. refl; in_order = refl }
run_lem (c ∷ cs) s v =
    let first = step_lem c s v in
    let rest = run_lem cs (step c s).1 first.valid in
    record {
      valid = rest.valid;
      fin_once =
          omega (
            arith,
            first.fin_once,
            rest.fin_once,
            fins-append (step c s).0 (run cs (step c s).1).0,
          );
      silent = λ e.
          written-append (step c s).0 (run cs (step c s).1).0
          ∙ (rw (first.silent e, rest.silent (kept first.fin_once e)));
      in_order =
          late-then (step c s).0 (run cs (step c s).1).0 first.in_order rest.in_order
            (λ pos. rest.silent (fin_now s (step c s) first.fin_once pos));
    }
  where
    kept :
        fins (step c s).0 + number s.fin_sent ≡ number (step c s).1.fin_sent
        → s.fin_sent ≡ true
        → (step c s).1.fin_sent ≡ true
    kept h e = ground arith

-- Over any sequence of calls a stream sends at most one FIN frame, none if it was sent before, and no
-- data goes on the wire behind it, neither in the call that sends it nor in any later one. The
-- invariant of a stream, which holds at the start, holds at the end.
pub run-fin :
    (calls : List Call) (s : YamuxStream)
    → IsValid s
    → (fins (run calls s).0 ≤ 1)
      × (late (run calls s).0 ≡ [])
      × (s.fin_sent ≡ true → (fins (run calls s).0 ≡ 0) × (written (run calls s).0 ≡ []))
      × IsValid (run calls s).1
run-fin calls s v =
    let r = run_lem calls s v in
    let le = number-le (run calls s).1.fin_sent in
    (
      omega (arith, r.fin_once),
      r.in_order,
      λ e. (omega (arith, r.fin_once, ap number e), r.silent e),
      r.valid,
    )
