-- ===== src/Muxer/Yamux/ReadingState/Headers.antt =====
-- How the reading state stands for a mode of the machine, and YamuxReadingState::processHeader.
use cpp_libp2p.Base.{
  ℕ, ◌+◌, ◌≤◌, ◌<◌, ◌≡◌, refl, ap, ◌∙◌, Bool, false, not, some, List, [], ◌++◌, arith, ◌==◌, length,
  length-append, take, drop, inl, inr, Bool-cases, Option-cases,
}
use cpp_libp2p.Basic.Collector.{FixedBufferCollector, expect}
use cpp_libp2p.Basic.Collector
use cpp_libp2p.Basic.Collector.Laws.{Waits, Completes, add-Waits, add-Completes}
use cpp_libp2p.Muxer.Yamux.Frame.{YamuxFrame, parse_frame, header_length}
use cpp_libp2p.Muxer.Yamux.ReadingState.{YamuxReadingState, take_header, process_header}
use cpp_libp2p.Muxer.Yamux.ReadingState.Machine.{
  Log, logging, Mode, in_header, in_data, Machine, has_data, told_header, mode_after,
  complete_header, complete_header_bad, complete_header_good,
}

-- The reading state is in this mode.
pub record InHeader (bytes : List ℕ) (r : YamuxReadingState) : Type 0 where
  pub buffered : r.header.buffer ≡ bytes
  pub partial : length bytes < header_length
  pub expected : r.header.expected_size ≡ header_length
  pub no_data : r.data_bytes_unread ≡ 0
  pub no_stream : r.read_data_stream ≡ 0
  pub no_rst : r.rst_after_data ≡ false
  pub no_fin : r.fin_after_data ≡ false

pub record InData (n sid : ℕ) (rst' fin' : Bool) (r : YamuxReadingState) : Type 0 where
  pub buffered : r.header.buffer ≡ []
  pub expected : r.header.expected_size ≡ header_length
  pub unread : r.data_bytes_unread ≡ n
  pub some_data : 0 < n
  pub stream : r.read_data_stream ≡ sid
  pub rst_flag : r.rst_after_data ≡ rst'
  pub fin_flag : r.fin_after_data ≡ fin'
  pub dropped : sid ≡ 0 → (rst' ≡ false) × (fin' ≡ false)

abbrev pub InMode : Mode → YamuxReadingState → Type 0
InMode (in_header bytes) r = InHeader bytes r
InMode (in_data n sid rst' fin') r = InData n sid rst' fin' r

-- The same was told, and the mode is the same unless a header was refused.
pub record Refines (m : Machine) (st : YamuxReadingState × Log) : Type 0 where
  pub log : st.1 ≡ m.log
  pub mode : m.log.stopped ≡ false → InMode m.mode st.0

pub record ModeAfter (f : YamuxFrame) (r : YamuxFrame × YamuxReadingState) : Type 0 where
  pub frame : r.0 ≡ told_header f
  pub mode : InMode (mode_after f) r.1

take_header-mode :
    (f : YamuxFrame) (r : YamuxReadingState)
    → r.data_bytes_unread ≡ 0
    → r.read_data_stream ≡ 0
    → r.rst_after_data ≡ false
    → r.fin_after_data ≡ false
    → ModeAfter f (take_header f r)
unfolding take_header expect
take_header-mode f r hd hs hr hf = elim (Bool-cases (has_data f)) [
  | inr none_there ↦ record {
    frame = rw none_there;
    mode = rw none_there (record {
      buffered = refl;
      partial = omega arith;
      expected = refl;
      no_data = hd;
      no_stream = hs;
      no_rst = hr;
      no_fin = hf;
    });
  }
  | inl there ↦ elim (Bool-cases (f.stream_id == 0)) [
    | inl z ↦ record {
      frame = rw (there, z);
      mode =
          rw (there, z)
            (record {
              buffered = refl;
              expected = refl;
              unread = refl;
              some_data = ground arith;
              stream = refl;
              rst_flag = hr;
              fin_flag = hf;
              dropped = λ _. (refl, refl);
            });
    }
    | inr nz ↦ record {
      frame = rw (there, nz);
      mode =
          rw (there, nz)
            (record {
              buffered = refl;
              expected = refl;
              unread = refl;
              some_data = ground arith;
              stream = refl;
              rst_flag = refl;
              fin_flag = refl;
              dropped = λ z. absurd (ground arith);
            });
    }
  ]
]

module _ (accept : YamuxFrame → Bool) where
  pub process_header_waits :
      (bytes hs : List ℕ) (r : YamuxReadingState) (log : Log)
      → InHeader hs r
      → length hs + length bytes < header_length
      → (p : YamuxReadingState) × (process_header (logging accept) bytes (r, log)
          ≡ (false, [], p, log))
        × InHeader (hs ++ bytes) p
  unfolding process_header
  process_header_waits bytes hs r log h lt =
      let w : Waits bytes r.header (Collector.add bytes r.header) =
        add-Waits bytes r.header (omega (arith, ap length h.buffered, h.expected)) in
      (
        record r { header = (Collector.add bytes r.header).2 },
        rw (w.nothing, w.used, process_header),
        record {
          buffered = w.kept ∙ ap (λ xs. xs ++ bytes) h.buffered;
          partial = omega (arith, length-append hs bytes);
          expected = w.same_size ∙ h.expected;
          no_data = h.no_data;
          no_stream = h.no_stream;
          no_rst = h.no_rst;
          no_fin = h.no_fin;
        },
      )

  -- What `processHeader` does with the end of a header.
  pub record HeaderDone (m : Machine) (left : List ℕ) (r : Bool × List ℕ × YamuxReadingState × Log)
      : Type 0 where
    pub rest : r.1 ≡ left
    pub refines : Refines m (r.2, r.3)
    pub go_on : r.0 ≡ not m.log.stopped

  pub process_header_ends :
      (u : ℕ) (bytes hs : List ℕ) (r : YamuxReadingState) (log : Log)
      → InHeader hs r
      → log.stopped ≡ false
      → length hs + u ≡ header_length
      → u ≤ length bytes
      → HeaderDone
          (complete_header accept (hs ++ take u bytes) log)
          (drop u bytes)
          (process_header (logging accept) bytes (r, log))
  unfolding process_header
  process_header_ends u bytes hs r log h go e le =
      let c : Completes u bytes r.header (Collector.add bytes r.header) =
        add-Completes u bytes r.header (omega (arith, ap length h.buffered, h.expected))
          (omega (arith, h.partial)) le in
      let msg : (Collector.add bytes r.header).0 ≡ some (hs ++ take u bytes) =
        c.message ∙ ap (λ xs. some (xs ++ take u bytes)) h.buffered in
      let p : YamuxReadingState = record r { header = (Collector.add bytes r.header).2 } in
      elim (Option-cases (parse_frame (hs ++ take u bytes))) [
        | inl bad ↦
            rw (complete_header_bad accept _ log bad, msg, bad, process_header)
              (record {
                rest = c.left;
                refines = record { log = refl; mode = λ s. cc };
                go_on = refl;
              })
        | inr (f, good) ↦
            let t : ModeAfter f (take_header f p) =
              take_header-mode f p h.no_data h.no_stream h.no_rst h.no_fin in
            rw (complete_header_good accept _ log f good, msg, good, t.frame, process_header)
              (record {
                rest = c.left;
                refines = record { log = refl; mode = λ _. t.mode };
                go_on = ground arith;
              })
      ]
