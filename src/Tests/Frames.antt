-- ===== src/Tests/Frames.antt =====
-- Yamux frames and the reading state.
use cpp_libp2p.Base.{
  ℕ, ◌≡◌, ◌<◌, ◌↔◌, ◌⊎◌, ◌++◌, refl, true, some, none, List, [], ◌∷◌, arith, length, get_or,
}
use mathlib.Core.List.{flatten}
use cpp_libp2p.Muxer.Yamux.Frame.{data_frame, fin, frame_bytes, parse_frame, header_length}
use cpp_libp2p.Muxer.Yamux.Frame.RoundTrip.{parse_frame-frame_bytes, parse_frame-none_iff}
use cpp_libp2p.Muxer.Yamux.ReadingState.{on_data_received}
use cpp_libp2p.Muxer.Yamux.ReadingState.Machine.{in_header, logging, run}
use cpp_libp2p.Muxer.Yamux.ReadingState.Headers.{Refines}
use cpp_libp2p.Muxer.Yamux.ReadingState.Bytewise.{
  deliver, deliver_cuts, on_data_received_lem, initial, initial-Refines, empty_log,
}

-- A header of a data frame with five bytes for stream 3, and its payload.
abbrev five_bytes : List ℕ
five_bytes = 0 ∷ 0 ∷ 0 ∷ 4 ∷ 0 ∷ 0 ∷ 0 ∷ 3 ∷ 0 ∷ 0 ∷ 0 ∷ 5 ∷ 10 ∷ 11 ∷ 12 ∷ 13 ∷ 14 ∷ []

parse_frame-frame_bytes_example :
    (parse_frame (frame_bytes 0 data_frame fin 3 5 ++ 10 ∷ [])
      ≡ some
          (record { version = 0; type = data_frame; flags = 4; stream_id = 3; length_field = 5 }))
    × (length (frame_bytes 0 data_frame fin 3 5) ≡ header_length)
parse_frame-frame_bytes_example =
    parse_frame-frame_bytes 0 data_frame fin 3 5 (10 ∷ []) (omega arith) (omega arith) (omega arith)

abbrev bad_type : List ℕ
bad_type = 0 ∷ 9 ∷ 0 ∷ 0 ∷ 0 ∷ 0 ∷ 0 ∷ 0 ∷ 0 ∷ 0 ∷ 0 ∷ 0 ∷ []

parse_frame-none_iff_example :
    (parse_frame bad_type ≡ none) ↔ ((length bad_type < header_length) ⊎ (3 < get_or bad_type 1 0))
parse_frame-none_iff_example = parse_frame-none_iff bad_type

on_data_received_lem_example :
    Refines
      (run (λ _. true) five_bytes (record { mode = in_header []; log = empty_log }))
      (on_data_received (logging (λ _. true)) five_bytes (initial 65536))
on_data_received_lem_example =
    on_data_received_lem (λ _. true) five_bytes (record { mode = in_header []; log = empty_log })
      (initial 65536) refl (initial-Refines 65536)

-- The same bytes in one read, and cut inside the header and inside the payload.
deliver_cuts_example :
    ((deliver (λ _. true) (five_bytes ∷ []) (initial 65536)).1
      ≡ (deliver
          (λ _. true)
          ((0 ∷ 0 ∷ 0 ∷ [])
            ∷ (4 ∷ 0 ∷ 0 ∷ 0 ∷ 3 ∷ 0 ∷ 0 ∷ 0 ∷ 5 ∷ 10 ∷ 11 ∷ [])
            ∷ (12 ∷ 13 ∷ 14 ∷ [])
            ∷ [])
          (initial 65536)).1)
    × ((deliver (λ _. true) (five_bytes ∷ []) (initial 65536)).1
        ≡ (run
            (λ _. true)
            (flatten (five_bytes ∷ []))
            (record { mode = in_header []; log = empty_log })).log)
unfolding flatten
deliver_cuts_example =
    deliver_cuts (λ _. true) 65536 (five_bytes ∷ [])
      ((0 ∷ 0 ∷ 0 ∷ [])
        ∷ (4 ∷ 0 ∷ 0 ∷ 0 ∷ 3 ∷ 0 ∷ 0 ∷ 0 ∷ 5 ∷ 10 ∷ 11 ∷ [])
        ∷ (12 ∷ 13 ∷ 14 ∷ [])
        ∷ [])
      refl
