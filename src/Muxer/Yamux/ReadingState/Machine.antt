-- ===== src/Muxer/Yamux/ReadingState/Machine.antt =====
-- The reading state's specification: a machine over single bytes, and what it is told.
use cpp_libp2p.Base.{
  ℕ, suc, ◌+◌, ◌-◌, ◌<◌, ◌≡◌, refl, ap, ◌∙◌, Bool, true, false, ◌&&◌, none, some, List, [], ◌∷◌,
  ◌++◌, arith, ltb, ◌==◌, if◌then◌else◌, length, length-append, inl, inr, append-nil, append_assoc,
  map, not, Bool-cases,
}
use cpp_libp2p.Muxer.Yamux.Frame.{YamuxFrame, parse_frame, header_length, fin, rst, flag_is_set}
use cpp_libp2p.Muxer.Yamux.ReadingState.{Callbacks, is_data, without_rst_fin}

-- What the callbacks are told, with data byte by byte.
pub data Event : Type 0 where
  header_event : YamuxFrame → Event
  bad_header : Event
  byte_event : ℕ → ℕ → Event
  rst_event fin_event : ℕ → Event

abbrev pub flag_events : ℕ → Bool → Bool → List Event
flag_events sid r f =
    (if r then rst_event sid ∷ [] else []) ++ (if f then fin_event sid ∷ [] else [])

abbrev pub bytes_events : ℕ → List ℕ → List Event
bytes_events sid bytes = map (byte_event sid) bytes

-- What was told so far, and whether a header was refused.
pub record Log : Type 0 where
  pub told : List Event
  pub stopped : Bool

abbrev pub tell : List Event → Log → Log
tell es l = record l { told = l.told ++ es }

-- Callbacks that write a log and refuse the headers that `accept` refuses.
abbrev pub logging : (YamuxFrame → Bool) → Callbacks Log
logging accept = record {
  on_header = λ h st. elim h [
    | none ↦ (false, st.0, record (tell (bad_header ∷ []) st.1) { stopped = true })
    | some f ↦ (
      accept f,
      st.0,
      record (tell (header_event f ∷ []) st.1) {
        stopped = if accept f then st.1.stopped else true;
      },
    )
  ];
  on_data = λ bytes sid r f st. (st.0, tell (bytes_events sid bytes ++ flag_events sid r f) st.1);
}

-- The machine: in the middle of a header, or of the data of a message.
pub data Mode : Type 0 where
  in_header : List ℕ → Mode
  in_data : ℕ → ℕ → Bool → Bool → Mode

pub record Machine : Type 0 where
  pub mode : Mode
  pub log : Log

-- Data for stream 0 is dropped, and ends with no event.
abbrev pub told_bytes : ℕ → List ℕ → List Event
told_bytes sid bytes = if sid == 0 then [] else bytes_events sid bytes

abbrev pub told_end : ℕ → Bool → Bool → List Event
told_end sid r f = if sid == 0 then [] else flag_events sid r f

abbrev pub has_data : YamuxFrame → Bool
has_data f = is_data f.type && ltb 0 f.length_field

-- The flags that end a message arrive with its last byte, not with its header.
abbrev pub told_header : YamuxFrame → YamuxFrame
told_header f =
    if has_data f && not (f.stream_id == 0) then record f { flags = without_rst_fin f.flags } else f

abbrev pub mode_after : YamuxFrame → Mode
mode_after f =
    if has_data f
    then in_data f.length_field f.stream_id (not (f.stream_id == 0) && flag_is_set rst f)
        (not (f.stream_id == 0) && flag_is_set fin f)
    else in_header []

module _ (accept : YamuxFrame → Bool) where
  unfoldable pub complete_header : List ℕ → Log → Machine
  complete_header bytes log = elim (parse_frame bytes) [
    | none ↦ record {
      mode = in_header [];
      log = record (tell (bad_header ∷ []) log) { stopped = true };
    }
    | some f ↦ record {
      mode = mode_after f;
      log = record (tell (header_event (told_header f) ∷ []) log) {
        stopped = if accept (told_header f) then log.stopped else true;
      };
    }
  ]

  pub complete_header_bad :
      (bytes : List ℕ) (log : Log)
      → parse_frame bytes ≡ none
      → complete_header bytes log ≡ record {
        mode = in_header [];
        log = record (tell (bad_header ∷ []) log) { stopped = true };
      }
  unfolding complete_header
  complete_header_bad bytes log e = rw (e, complete_header)

  pub complete_header_good :
      (bytes : List ℕ) (log : Log) (f : YamuxFrame)
      → parse_frame bytes ≡ some f
      → complete_header bytes log ≡ record {
        mode = mode_after f;
        log = record (tell (header_event (told_header f) ∷ []) log) {
          stopped = if accept (told_header f) then log.stopped else true;
        };
      }
  unfolding complete_header
  complete_header_good bytes log f e = rw (e, complete_header)

  unfoldable pub step_mode : ℕ → Mode → Log → Machine
  step_mode b (in_header bytes) log =
      if length bytes + 1 == header_length
      then complete_header (bytes ++ b ∷ []) log
      else record { mode = in_header (bytes ++ b ∷ []); log = log }
  step_mode b (in_data n sid r f) log =
      if n == 1
      then record {
        mode = in_header [];
        log = tell (told_bytes sid (b ∷ []) ++ told_end sid r f) log;
      }
      else record { mode = in_data (n - 1) sid r f; log = tell (told_bytes sid (b ∷ [])) log }

  -- After a refused header nothing is read.
  unfoldable pub step : ℕ → Machine → Machine
  step b m = if m.log.stopped then m else step_mode b m.mode m.log

  unfoldable pub run : List ℕ → Machine → Machine
  run [] m = m
  run (b ∷ bs) m = run bs (step b m)

  pub run-append : (xs bs : List ℕ) (m : Machine) → run (xs ++ bs) m ≡ run bs (run xs m)
  unfolding run
  run-append [] bs m = refl
  run-append (x ∷ xs) bs m = run-append xs bs (step x m)

  step_stopped : (b : ℕ) (m : Machine) → m.log.stopped ≡ true → step b m ≡ m
  unfolding step
  step_stopped b m h = ground arith

  pub run_stopped : (bs : List ℕ) (m : Machine) → m.log.stopped ≡ true → run bs m ≡ m
  unfolding run
  run_stopped [] m h = refl
  run_stopped (b ∷ bs) m h = rw (step_stopped b m h) (run_stopped bs m h)

  step_header :
      (b : ℕ) (hs : List ℕ) (log : Log)
      → log.stopped ≡ false
      → length hs + 1 < header_length
      → step b (record { mode = in_header hs; log = log })
        ≡ record { mode = in_header (hs ++ b ∷ []); log = log }
  unfolding step step_mode
  step_header b hs log go lt = ground arith

  step_header_last :
      (b : ℕ) (hs : List ℕ) (log : Log)
      → log.stopped ≡ false
      → length hs + 1 ≡ header_length
      → step b (record { mode = in_header hs; log = log }) ≡ complete_header (hs ++ b ∷ []) log
  unfolding step step_mode
  step_header_last b hs log go e = ground arith

  -- Part of a header.
  pub run_header :
      (bs hs : List ℕ) (log : Log)
      → log.stopped ≡ false
      → length hs + length bs < header_length
      → run bs (record { mode = in_header hs; log = log })
        ≡ record { mode = in_header (hs ++ bs); log = log }
  unfolding run
  run_header [] hs log go lt = rw append-nil
  run_header (b ∷ bs) hs log go lt = rw (step_header b hs log go (omega arith)) (
      run_header bs (hs ++ b ∷ []) log go (omega (arith, length-append hs (b ∷ [])))
      ∙ ap (λ xs. record { mode = in_header xs; log = log }) (append_assoc hs (b ∷ []) bs))

  -- The end of a header.
  pub run_header_end :
      (bs hs : List ℕ) (log : Log)
      → log.stopped ≡ false
      → length hs + length bs ≡ header_length
      → 0 < length bs
      → run bs (record { mode = in_header hs; log = log }) ≡ complete_header (hs ++ bs) log
  unfolding run
  run_header_end [] hs log go e pos = absurd (omega arith)
  run_header_end (b ∷ []) hs log go e pos = step_header_last b hs log go (omega arith)
  run_header_end (b ∷ c ∷ cs) hs log go e pos = rw (step_header b hs log go (omega arith)) (
      run_header_end (c ∷ cs) (hs ++ b ∷ []) log go (omega (arith, length-append hs (b ∷ [])))
        (omega arith)
      ∙ ap (λ xs. complete_header xs log) (append_assoc hs (b ∷ []) (c ∷ cs)))

  step_data :
      (b n sid : ℕ) (r f : Bool) (log : Log)
      → log.stopped ≡ false
      → 1 < n
      → step b (record { mode = in_data n sid r f; log = log })
        ≡ record { mode = in_data (n - 1) sid r f; log = tell (told_bytes sid (b ∷ [])) log }
  unfolding step step_mode
  step_data b n sid r f log go lt = ground arith

  step_data_last :
      (b sid : ℕ) (r f : Bool) (log : Log)
      → log.stopped ≡ false
      → step b (record { mode = in_data 1 sid r f; log = log }) ≡ record {
        mode = in_header [];
        log = tell (told_bytes sid (b ∷ []) ++ told_end sid r f) log;
      }
  unfolding step step_mode
  step_data_last b sid r f log go = ground arith

  tell-told :
      (sid b : ℕ) (bs : List ℕ) (es : List Event) (log : Log)
      → tell (told_bytes sid bs ++ es) (tell (told_bytes sid (b ∷ [])) log)
        ≡ tell (told_bytes sid (b ∷ bs) ++ es) log
  tell-told sid b bs es log = elim (Bool-cases (sid == 0)) [
    | inl z ↦ rw (z, append-nil)
    | inr nz ↦ rw nz (ap (λ xs. record log { told = xs }) (append_assoc log.told _ _))
  ]

  -- Part of the data of a message.
  pub run_data :
      (bs : List ℕ) (n sid : ℕ) (r f : Bool) (log : Log)
      → log.stopped ≡ false
      → length bs < n
      → run bs (record { mode = in_data n sid r f; log = log }) ≡ record {
        mode = in_data (n - length bs) sid r f;
        log = tell (told_bytes sid bs ++ []) log;
      }
  unfolding run
  run_data [] n sid r f log go lt = ground (arith, append-nil log.told)
  run_data (b ∷ bs) n sid r f log go lt =
      let e : n - 1 - length bs ≡ n - suc (length bs) = omega arith in
      rw (step_data b n sid r f log go (omega arith))
        (run_data bs (n - 1) sid r f _ go (omega arith) ∙ rw (e, tell-told sid b bs [] log))

  -- The last data of a message.
  pub run_data_end :
      (bs : List ℕ) (n sid : ℕ) (r f : Bool) (log : Log)
      → log.stopped ≡ false
      → length bs ≡ n
      → 0 < n
      → run bs (record { mode = in_data n sid r f; log = log })
        ≡ record { mode = in_header []; log = tell (told_bytes sid bs ++ told_end sid r f) log }
  unfolding run
  run_data_end [] n sid r f log go e pos = absurd (omega arith)
  run_data_end (b ∷ []) n sid r f log go e pos =
      let e1 : n ≡ 1 = omega arith in rw e1 (step_data_last b sid r f log go)
  run_data_end (b ∷ c ∷ cs) n sid r f log go e pos =
      rw (step_data b n sid r f log go (omega arith)) (
        run_data_end (c ∷ cs) (n - 1) sid r f _ go (omega arith) (omega arith)
        ∙ rw (tell-told sid b (c ∷ cs) (told_end sid r f) log))
