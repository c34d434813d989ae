-- ===== src/Muxer/Yamux/ReadingState/DataPieces.antt =====
-- YamuxReadingState::processData against the machine over single bytes.
use cpp_libp2p.Base.{
  ℕ, ◌-◌, ◌≤◌, ◌<◌, ◌≡◌, ◌≢◌, refl, sym, ap, Bool, List, [], ◌++◌, arith, ltb, ◌==◌, if◌then◌else◌,
  length, take, drop, take_all, drop_all, inl, inr, append-nil, Bool-cases,
}
use cpp_libp2p.Basic.Collector.{expect}
use cpp_libp2p.Muxer.Yamux.Frame.{YamuxFrame}
use cpp_libp2p.Muxer.Yamux.ReadingState.{YamuxReadingState, reset, process_data}
use cpp_libp2p.Muxer.Yamux.ReadingState.Machine.{
  Log, tell, bytes_events, flag_events, logging, in_header, in_data, Machine, told_bytes, told_end,
}
use cpp_libp2p.Muxer.Yamux.ReadingState.Headers.{InHeader, InData, Refines}

module _ (accept : YamuxFrame → Bool) where
  pub record DataDone (m : Machine) (left : List ℕ) (r : List ℕ × YamuxReadingState × Log)
      : Type 0 where
    pub rest : r.0 ≡ left
    pub refines : Refines m (r.1, r.2)

  -- The four cases of `processData`: for stream 0 or another, with more data to come or not.
  module _ (bytes : List ℕ) (r : YamuxReadingState) (log : Log) where
    data_dropped :
        r.read_data_stream ≡ 0
        → (n : ℕ)
        → n ≡ (if ltb (length bytes) r.data_bytes_unread then length bytes else r.data_bytes_unread)
        → process_data (logging accept) bytes (r, log)
          ≡ (drop n bytes, record r { data_bytes_unread = r.data_bytes_unread - n }, log)
    unfolding process_data
    data_dropped z n e = ground arith

    data_partial :
        r.read_data_stream ≢ 0
        → length bytes < r.data_bytes_unread
        → process_data (logging accept) bytes (r, log) ≡ (
          drop (length bytes) bytes,
          record r { data_bytes_unread = r.data_bytes_unread - length bytes },
          tell (bytes_events r.read_data_stream (take (length bytes) bytes) ++ []) log,
        )
    unfolding process_data
    data_partial nz lt = ground arith

    data_last :
        r.read_data_stream ≢ 0
        → r.data_bytes_unread ≤ length bytes
        → process_data (logging accept) bytes (r, log) ≡ (
          drop r.data_bytes_unread bytes,
          reset (record r { data_bytes_unread = r.data_bytes_unread - r.data_bytes_unread }),
          tell
              (bytes_events r.read_data_stream (take r.data_bytes_unread bytes)
                ++ flag_events r.read_data_stream r.rst_after_data r.fin_after_data)
              log,
        )
    unfolding process_data
    data_last nz le = ground arith

  -- The mode that the fields of the state spell.
  abbrev pub InOwnData : YamuxReadingState → Type 0
  InOwnData r = InData r.data_bytes_unread r.read_data_stream r.rst_after_data r.fin_after_data r

  pub process_data_partial :
      (bytes : List ℕ) (r : YamuxReadingState) (log : Log)
      → InOwnData r
      → length bytes < r.data_bytes_unread
      → DataDone
          (record {
            mode =
                in_data
                  (r.data_bytes_unread - length bytes)
                  r.read_data_stream
                  r.rst_after_data
                  r.fin_after_data;
            log = tell (told_bytes r.read_data_stream bytes ++ []) log;
          })
          []
          (process_data (logging accept) bytes (r, log))
  process_data_partial bytes r log i lt =
      let none_left : drop (length bytes) bytes ≡ [] =
        drop_all (length bytes) bytes (omega arith) in
      let all : take (length bytes) bytes ≡ bytes = take_all (length bytes) bytes (omega arith) in
      let mode : InData (r.data_bytes_unread - length bytes) r.read_data_stream r.rst_after_data
          r.fin_after_data (record r { data_bytes_unread = r.data_bytes_unread - length bytes }) =
        record {
          buffered = i.buffered;
          expected = i.expected;
          unread = refl;
          some_data = omega arith;
          stream = refl;
          rst_flag = refl;
          fin_flag = refl;
          dropped = i.dropped;
        } in
      elim (Bool-cases (r.read_data_stream == 0)) [
        | inl z ↦
            rw (data_dropped bytes r log (ground arith) (length bytes) (ground arith)) (record {
              rest = none_left;
              refines = record {
                log = rw z (ap (λ xs. record log { told = xs }) (sym (append-nil log.told)));
                mode = λ _. mode;
              };
            })
        | inr nz ↦
            rw (data_partial bytes r log (λ z. ground arith) lt, all)
              (record { rest = none_left; refines = record { log = rw nz; mode = λ _. mode } })
      ]

  reset-InHeader :
      (r : YamuxReadingState) (n : ℕ) → InHeader [] (reset (record r { data_bytes_unread = n }))
  unfolding reset expect
  reset-InHeader r n = record {
    buffered = refl;
    partial = omega arith;
    expected = refl;
    no_data = refl;
    no_stream = refl;
    no_rst = refl;
    no_fin = refl;
  }

  pub process_data_last :
      (bytes : List ℕ) (r : YamuxReadingState) (log : Log)
      → InOwnData r
      → r.data_bytes_unread ≤ length bytes
      → DataDone
          (record {
            mode = in_header [];
            log =
                tell
                  (told_bytes r.read_data_stream (take r.data_bytes_unread bytes)
                    ++ told_end r.read_data_stream r.rst_after_data r.fin_after_data)
                  log;
          })
          (drop r.data_bytes_unread bytes)
          (process_data (logging accept) bytes (r, log))
  process_data_last bytes r log i le = elim (Bool-cases (r.read_data_stream == 0)) [
    | inl z ↦
        let zero_stream : r.read_data_stream ≡ 0 = ground arith in
        rw (data_dropped bytes r log zero_stream r.data_bytes_unread (ground arith)) (record {
          rest = refl;
          refines = record {
            log = rw z (ap (λ xs. record log { told = xs }) (sym (append-nil log.told)));
            mode = λ _. record {
              buffered = i.buffered;
              partial = omega arith;
              expected = i.expected;
              no_data = omega arith;
              no_stream = zero_stream;
              no_rst = (i.dropped zero_stream).0;
              no_fin = (i.dropped zero_stream).1;
            };
          };
        })
    | inr nz ↦
        rw (data_last bytes r log (λ z. ground arith) le)
          (record { rest = refl; refines = record { log = rw nz; mode = λ _. reset-InHeader r _ } })
  ]
