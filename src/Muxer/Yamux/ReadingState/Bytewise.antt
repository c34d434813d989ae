-- ===== src/Muxer/Yamux/ReadingState/Bytewise.antt =====
-- The reading state refines the machine over single bytes, however the bytes are cut into pieces.
use cpp_libp2p.Base.{
  ℕ, zero, suc, ◌+◌, ◌-◌, ◌≤◌, ◌<◌, ◌≡◌, refl, sym, ap, ◌∙◌, Bool, true, false, not, List, [], ◌∷◌,
  ◌++◌, arith, ◌==◌, if◌then◌else◌, length, length-take, length-drop, take, drop, lt_or_le, inl,
  inr, Bool-cases, take-append-drop,
}
use mathlib.Core.List.{flatten}
use cpp_libp2p.Muxer.Yamux.Frame.{YamuxFrame, header_length}
use cpp_libp2p.Muxer.Yamux.ReadingState.{
  YamuxReadingState, new_reading_state, process_header, process_data, read_loop, on_data_received,
}
use cpp_libp2p.Muxer.Yamux.ReadingState.Machine.{
  Log, logging, Mode, in_header, in_data, Machine, complete_header, run, run-append, run_stopped,
  run_header, run_header_end, run_data, run_data_end,
}
use cpp_libp2p.Muxer.Yamux.ReadingState.Headers.{
  InData, InMode, Refines, HeaderDone, process_header_waits, process_header_ends,
}
use cpp_libp2p.Muxer.Yamux.ReadingState.DataPieces.{
  DataDone, InOwnData, process_data_partial, process_data_last,
}

module _ (accept : YamuxFrame → Bool) where
  loop_stops :
      (fuel : ℕ) (bytes : List ℕ) (st : YamuxReadingState × Log)
      → read_loop (logging accept) fuel false bytes st ≡ st
  unfolding read_loop
  loop_stops zero bytes st = refl
  loop_stops (suc fuel) bytes st = refl

  loop_ends :
      (fuel : ℕ) (st : YamuxReadingState × Log) → read_loop (logging accept) fuel true [] st ≡ st
  unfolding read_loop
  loop_ends zero st = refl
  loop_ends (suc fuel) st = refl

  module _ (fuel b : ℕ) (bs : List ℕ) (r : YamuxReadingState) (log : Log) where
    loop_header :
        r.data_bytes_unread ≡ 0
        → let p = process_header (logging accept) (b ∷ bs) (r, log) in
          read_loop (logging accept) (suc fuel) true (b ∷ bs) (r, log)
          ≡ read_loop (logging accept) fuel p.0 p.1 (p.2, p.3)
    unfolding read_loop
    loop_header z = let t : (r.data_bytes_unread == 0) ≡ true = ground arith in rw (t, read_loop)

    loop_data :
        0 < r.data_bytes_unread
        → let p = process_data (logging accept) (b ∷ bs) (r, log) in
          read_loop (logging accept) (suc fuel) true (b ∷ bs) (r, log)
          ≡ read_loop (logging accept) fuel true p.0 (p.1, p.2)
    unfolding read_loop
    loop_data pos = let t : (r.data_bytes_unread == 0) ≡ false = ground arith in rw (t, read_loop)

  -- What is claimed of a run of the loop over `bytes` from the mode and the log.
  abbrev LoopRefines : ℕ → List ℕ → Machine → YamuxReadingState × Log → Type 0
  LoopRefines fuel bytes m st =
      Refines (run accept bytes m) (read_loop (logging accept) fuel true bytes st)

  -- A run over the front of the bytes, and the loop from there.
  run_split :
      (u : ℕ) (bytes : List ℕ) (m : Machine)
      → run accept bytes m ≡ run accept (drop u bytes) (run accept (take u bytes) m)
  run_split u bytes m =
      ap (λ xs. run accept xs m) (sym (take-append-drop u bytes))
      ∙ run-append accept (take u bytes) (drop u bytes) m

  -- From the state behind one round to the end of the loop.
  after_round :
      (fuel : ℕ) (left : List ℕ) (m : Machine) (proceed : Bool) (r : YamuxReadingState) (log : Log)
      → Refines m (r, log)
      → proceed ≡ not m.log.stopped
      → (m.log.stopped ≡ false → InMode m.mode r → LoopRefines fuel left m (r, m.log))
      → Refines (run accept left m) (read_loop (logging accept) fuel proceed left (r, log))
  after_round fuel left m proceed r log f e next = elim (Bool-cases m.log.stopped) [
    | inl halted ↦
        let off : proceed ≡ false = e ∙ ap not halted in
        rw (off, loop_stops fuel left (r, log), run_stopped accept left m halted) f
    | inr going ↦
        let on : proceed ≡ true = e ∙ ap not going in rw (on, f.log) (next going (f.mode going))
  ]

  own_mode :
      (n sid : ℕ) (rf ff : Bool) (r : YamuxReadingState)
      → InData n sid rf ff r
      → in_data n sid rf ff
        ≡ in_data r.data_bytes_unread r.read_data_stream r.rst_after_data r.fin_after_data
  own_mode n sid rf ff r i = ground (arith, i.unread, i.stream, i.rst_flag, i.fin_flag)

  own_data :
      (n sid : ℕ) (rf ff : Bool) (r : YamuxReadingState) → InData n sid rf ff r → InOwnData accept r
  own_data n sid rf ff r i = record {
    buffered = i.buffered;
    expected = i.expected;
    unread = refl;
    some_data = omega (arith, i.unread, i.some_data);
    stream = refl;
    rst_flag = refl;
    fin_flag = refl;
    dropped = λ z. ground (arith, i.dropped (sym i.stream ∙ z), i.rst_flag, i.fin_flag);
  }

  read_loop_lem :
      (fuel : ℕ) (bytes : List ℕ) (mode : Mode) (log : Log) (r : YamuxReadingState)
      → length bytes ≤ fuel
      → log.stopped ≡ false
      → InMode mode r
      → LoopRefines fuel bytes (record { mode = mode; log = log }) (r, log)
  read_loop_lem fuel [] mode log r le go i =
      rw (loop_ends fuel (r, log)) (unfold run in (record { log = refl; mode = λ _. i }))
  read_loop_lem zero (b ∷ bs) mode log r le go i = absurd (omega arith)
  read_loop_lem (suc fuel) (b ∷ bs) (in_header hs) log r le go i =
      rw (loop_header fuel b bs r log i.no_data)
        (elim (lt_or_le (length hs + length (b ∷ bs)) header_length) [
          | inl lt ↦
              let (p, e, h) = process_header_waits accept (b ∷ bs) hs r log i lt in
              rw (e, loop_stops fuel [] (p, log), run_header accept (b ∷ bs) hs log go lt)
                (record { log = refl; mode = λ _. h })
          | inr ge ↦
              let u = header_length - length hs in
              let full : length hs + u ≡ header_length = omega (arith, i.partial) in
              let d : HeaderDone accept (complete_header accept (hs ++ take u (b ∷ bs)) log)
                  (drop u (b ∷ bs)) (process_header (logging accept) (b ∷ bs) (r, log)) =
                process_header_ends accept u (b ∷ bs) hs r log i go full (omega arith) in
              let size : length (take u (b ∷ bs)) ≡ u = omega (arith, length-take u (b ∷ bs)) in
              rw
                (
                  run_split u (b ∷ bs) (record { mode = in_header hs; log = log }),
                  run_header_end accept (take u (b ∷ bs)) hs log go (omega arith)
                      (omega (arith, i.partial)),
                  d.rest,
                )
                (after_round fuel (drop u (b ∷ bs)) _ _ _ _ d.refines d.go_on (λ going at.
                  read_loop_lem fuel (drop u (b ∷ bs)) _ _ _
                    (omega (arith, i.partial, length-drop u (b ∷ bs))) going at))
        ])
  read_loop_lem (suc fuel) (b ∷ bs) (in_data n sid rf ff) log r le go i =
      let own : InOwnData accept r = own_data n sid rf ff r i in
      rw (loop_data fuel b bs r log own.some_data, own_mode n sid rf ff r i)
        (elim (lt_or_le (length (b ∷ bs)) r.data_bytes_unread) [
          | inl lt ↦
              let d : DataDone accept _ [] (process_data (logging accept) (b ∷ bs) (r, log)) =
                process_data_partial accept (b ∷ bs) r log own lt in
              rw (run_data accept (b ∷ bs) _ _ _ _ log go lt, d.rest, loop_ends fuel) d.refines
          | inr ge ↦
              let n' : ℕ = r.data_bytes_unread in
              let d : DataDone accept _ (drop n' (b ∷ bs))
                  (process_data (logging accept) (b ∷ bs) (r, log)) =
                process_data_last accept (b ∷ bs) r log own ge in
              let size : length (take n' (b ∷ bs)) ≡ n' = omega (arith, length-take n' (b ∷ bs)) in
              rw
                (
                  run_split n' (b ∷ bs),
                  run_data_end accept (take n' (b ∷ bs)) n' r.read_data_stream r.rst_after_data
                      r.fin_after_data log go size own.some_data,
                  d.rest,
                )
                (after_round fuel (drop n' (b ∷ bs)) _ true _ _ d.refines (sym (ap not go))
                  (λ going at.
                    read_loop_lem fuel (drop n' (b ∷ bs)) _ _ _
                      (omega (arith, own.some_data, length-drop n' (b ∷ bs))) going at))
        ])

-- However many rounds the loop makes, one call of `onDataReceived` tells what the machine tells for
-- the same bytes, and leaves the reading state in the machine's mode.
pub on_data_received_lem :
    (accept : YamuxFrame → Bool) (bytes : List ℕ) (m : Machine) (st : YamuxReadingState × Log)
    → m.log.stopped ≡ false
    → Refines m st
    → Refines (run accept bytes m) (on_data_received (logging accept) bytes st)
unfolding on_data_received
on_data_received_lem accept bytes m st go f =
    rw f.log
      (read_loop_lem accept (length bytes) bytes m.mode m.log st.0 (omega arith) go (f.mode go))

-- A piece that was read; the connection reads no more once it has closed.
unfoldable pub read_piece :
    (YamuxFrame → Bool) → List ℕ → YamuxReadingState × Log → YamuxReadingState × Log
read_piece accept piece st = if st.1.stopped then st else on_data_received (logging accept) piece st

unfoldable pub deliver :
    (YamuxFrame → Bool) → List (List ℕ) → YamuxReadingState × Log → YamuxReadingState × Log
unfolding read_piece
deliver accept [] st = st
deliver accept (piece ∷ pieces) st = deliver accept pieces (read_piece accept piece st)

read_piece_lem :
    (accept : YamuxFrame → Bool) (piece : List ℕ) (m : Machine) (st : YamuxReadingState × Log)
    → Refines m st
    → Refines (run accept piece m) (read_piece accept piece st)
unfolding read_piece
read_piece_lem accept piece m st f = elim (Bool-cases m.log.stopped) [
  | inl halted ↦
      let e : st.1.stopped ≡ true = ap (λ l. l.stopped) f.log ∙ halted in
      simp (run_stopped accept piece m halted, e) f
  | inr going ↦
      let e : st.1.stopped ≡ false = ap (λ l. l.stopped) f.log ∙ going in
      simp e (on_data_received_lem accept piece m st going f)
]

deliver_lem :
    (accept : YamuxFrame → Bool) (pieces : List (List ℕ)) (m : Machine)
    (st : YamuxReadingState × Log)
    → Refines m st
    → Refines (run accept (flatten pieces) m) (deliver accept pieces st)
unfolding deliver flatten
deliver_lem accept [] m st f = unfold run in f
deliver_lem accept (piece ∷ pieces) m st f =
    rw run-append
      (deliver_lem accept pieces (run accept piece m) _ (read_piece_lem accept piece m st f))

abbrev pub empty_log : Log
empty_log = record { told = []; stopped = false }

abbrev pub initial : ℕ → YamuxReadingState × Log
initial threshold = (new_reading_state threshold, empty_log)

pub initial-Refines :
    (threshold : ℕ) → Refines (record { mode = in_header []; log = empty_log }) (initial threshold)
initial-Refines threshold = record {
  log = refl;
  mode = λ _. record {
    buffered = refl;
    partial = omega arith;
    expected = refl;
    no_data = refl;
    no_stream = refl;
    no_rst = refl;
    no_fin = refl;
  };
}

-- How the network cuts the bytes into reads does not matter: from a new reading state, what the
-- callbacks are told (headers, data bytes per stream, ends of messages) depends only on the bytes
-- in a row, whichever headers the connection refuses, and it is what the machine over single bytes
-- tells.
pub deliver_cuts :
    (accept : YamuxFrame → Bool) (threshold : ℕ) (pieces others : List (List ℕ))
    → flatten pieces ≡ flatten others
    → ((deliver accept pieces (initial threshold)).1
        ≡ (deliver accept others (initial threshold)).1)
      × ((deliver accept pieces (initial threshold)).1
          ≡ (run accept (flatten pieces) (record { mode = in_header []; log = empty_log })).log)
deliver_cuts accept threshold pieces others e =
    let f : Refines (run accept (flatten pieces) (record { mode = in_header []; log = empty_log }))
        (deliver accept pieces (initial threshold)) =
      deliver_lem accept pieces _ (initial threshold) (initial-Refines threshold) in
    let g : Refines (run accept (flatten others) (record { mode = in_header []; log = empty_log }))
        (deliver accept others (initial threshold)) =
      deliver_lem accept others _ (initial threshold) (initial-Refines threshold) in
    (
      f.log
          ∙ ap (λ xs. (run accept xs (record { mode = in_header []; log = empty_log })).log) e
          ∙ sym g.log,
      f.log,
    )
