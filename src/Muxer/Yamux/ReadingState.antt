-- ===== src/Muxer/Yamux/ReadingState.antt =====
-- include/libp2p/muxer/yamux/yamux_reading_state.hpp and src/muxer/yamux/yamux_reading_state.cpp:
-- the received bytes cut into headers and pieces of data. The two callbacks may call back, so they
-- act on the reading state together with a state `S` of their own.
pub mod Machine
pub mod Headers
pub mod DataPieces
pub mod Bytewise
use cpp_libp2p.Base.{
  ℕ, zero, suc, ◌-◌, bit_and, Bool, true, false, not, ◌&&◌, Option, none, some, List, [], ◌∷◌, ltb,
  ◌==◌, if◌then◌else◌, length, take, drop,
}
use cpp_libp2p.Basic.Collector.{FixedBufferCollector, new_collector, expect}
use cpp_libp2p.Basic.Collector
use cpp_libp2p.Muxer.Yamux.Frame.{
  YamuxFrame, FrameType, data_frame, window_update, ping, go_away, fin, rst, flag_is_set,
  parse_frame, header_length,
}

pub record YamuxReadingState : Type 0 where
  pub header : FixedBufferCollector
  pub data_bytes_unread : ℕ
  pub read_data_stream : ℕ
  pub rst_after_data : Bool
  pub fin_after_data : Bool

abbrev pub new_reading_state : ℕ → YamuxReadingState
new_reading_state threshold = record {
  header = new_collector header_length threshold;
  data_bytes_unread = 0;
  read_data_stream = 0;
  rst_after_data = false;
  fin_after_data = false;
}

unfoldable pub discard_data_message : YamuxReadingState → YamuxReadingState
discard_data_message r = record r {
  read_data_stream = 0;
  rst_after_data = false;
  fin_after_data = false;
}

unfoldable pub reset : YamuxReadingState → YamuxReadingState
unfolding discard_data_message
reset r =
    discard_data_message
      (record r { header = expect header_length r.header; data_bytes_unread = 0 })

-- HeaderCallback and DataCallback.
pub record Callbacks (S : Type 0) : Type 0 where
  pub on_header : Option YamuxFrame → YamuxReadingState × S → Bool × YamuxReadingState × S
  pub on_data : List ℕ → ℕ → Bool → Bool → YamuxReadingState × S → YamuxReadingState × S

abbrev pub is_data : FrameType → Bool
is_data data_frame = true
is_data window_update = false
is_data ping = false
is_data go_away = false

-- `~(RST | FIN)` on 16 bits.
abbrev pub without_rst_fin : ℕ → ℕ
without_rst_fin flags = bit_and flags 0xfff3

-- What a header does to the state before the callback is told, and the frame it is told.
unfoldable pub take_header : YamuxFrame → YamuxReadingState → YamuxFrame × YamuxReadingState
take_header frame r =
    let r' = record r { header = expect header_length r.header } in
    if is_data frame.type && ltb 0 frame.length_field
    then if frame.stream_id == 0
      then (
        frame,
        record r' { data_bytes_unread = frame.length_field; read_data_stream = frame.stream_id },
      )
      else (
        record frame { flags = without_rst_fin frame.flags },
        record r' {
          data_bytes_unread = frame.length_field;
          read_data_stream = frame.stream_id;
          rst_after_data = flag_is_set rst frame;
          fin_after_data = flag_is_set fin frame;
        },
      )
    else (frame, r')

module _ {S : Type 0} (cb : Callbacks S) where
  -- Returns whether to go on, the bytes left, and the state.
  unfoldable pub process_header :
      List ℕ → YamuxReadingState × S → Bool × List ℕ × YamuxReadingState × S
  process_header bytes (r, s) =
      let (maybe_header, left, h) = Collector.add bytes r.header in
      let r1 = record r { header = h } in
      elim maybe_header [
        | none ↦ (false, left, r1, s)
        | some bytes' ↦ elim (parse_frame bytes') [
          | none ↦ let (go_on, r2, s2) = cb.on_header none (r1, s) in (go_on, left, r2, s2)
          | some frame ↦
              let (frame', r2) = take_header frame r1 in
              let (go_on, r3, s3) = cb.on_header (some frame') (r2, s) in (go_on, left, r3, s3)
        ]
      ]

  -- Returns the bytes left, and the state.
  unfoldable pub process_data : List ℕ → YamuxReadingState × S → List ℕ × YamuxReadingState × S
  process_data bytes (r, s) =
      let n =
        (if ltb (length bytes) r.data_bytes_unread then length bytes else r.data_bytes_unread) in
      let head = take n bytes in
      let tail = drop n bytes in
      let r1 = record r { data_bytes_unread = r.data_bytes_unread - n } in
      if r.read_data_stream == 0
      then (tail, r1, s)
      else let last = r1.data_bytes_unread == 0 in
        let (r2, s2) =
          cb.on_data head r.read_data_stream (last && r.rst_after_data) (last && r.fin_after_data)
            ((if last then reset r1 else r1), s) in
        (tail, r2, s2)

  -- The loop of `onDataReceived`; `proceed` is checked with the bytes left. Each round takes a byte
  -- at least, so as many rounds as there are bytes are enough.
  unfoldable pub read_loop : ℕ → Bool → List ℕ → YamuxReadingState × S → YamuxReadingState × S
  read_loop zero proceed bytes st = st
  read_loop (suc fuel) false bytes st = st
  read_loop (suc fuel) true [] st = st
  read_loop (suc fuel) true (b ∷ bs) (r, s) = elim (r.data_bytes_unread == 0) [
    | true ↦
        let (proceed, left, r2, s2) = process_header (b ∷ bs) (r, s) in
        read_loop fuel proceed left (r2, s2)
    | false ↦ let (left, r2, s2) = process_data (b ∷ bs) (r, s) in read_loop fuel true left (r2, s2)
  ]

  unfoldable pub on_data_received : List ℕ → YamuxReadingState × S → YamuxReadingState × S
  unfolding read_loop process_header process_data
  on_data_received bytes st = read_loop (length bytes) true bytes st
