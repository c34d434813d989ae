-- ===== src/Muxer/Yamux/Frame/RoundTrip.antt =====
-- A frame header is read back as it was written, and which inputs are headers.
use cpp_libp2p.Base.{
  ℕ, ◌+◌, ◌*◌, ◌/◌, ◌%◌, ◌^◌, ◌<◌, ◌≡◌, refl, ◌↔◌, ◌⊎◌, none, some, List, [], ◌∷◌, ◌++◌, arith,
  length, get_or,
}
use cpp_libp2p.Common.Byteutil.{put_uint8_lem, put_uint16_be_lem, put_uint32_be_lem, be16}
use cpp_libp2p.Muxer.Yamux.Frame.{
  FrameType, data_frame, window_update, ping, go_away, Flag, none_flag, syn, ack, fin, rst,
  type_number, flag_number, frame_bytes, parse_frame, header_length, type_of_byte,
}

-- The twelve bytes of a header.
abbrev pub header : ℕ → FrameType → Flag → ℕ → ℕ → List ℕ
header version type flag stream_id len =
    version
    ∷ type_number type
    ∷ 0
    ∷ flag_number flag
    ∷ stream_id / 2 ^ 24 % 256
    ∷ stream_id / 2 ^ 16 % 256
    ∷ stream_id / 2 ^ 8 % 256
    ∷ stream_id % 256
    ∷ len / 2 ^ 24 % 256
    ∷ len / 2 ^ 16 % 256
    ∷ len / 2 ^ 8 % 256
    ∷ len % 256
    ∷ []

flag_bytes : (flag : Flag) → be16 (flag_number flag % 2 ^ 8) ≡ 0 ∷ flag_number flag ∷ []
flag_bytes none_flag = refl
flag_bytes syn = refl
flag_bytes ack = refl
flag_bytes fin = refl
flag_bytes rst = refl

type_number-lt : (type : FrameType) → type_number type < 256
type_number-lt data_frame = omega arith
type_number-lt window_update = omega arith
type_number-lt ping = omega arith
type_number-lt go_away = omega arith

type_of_byte-type_number : (type : FrameType) → type_of_byte (type_number type) ≡ some type
type_of_byte-type_number data_frame = refl
type_of_byte-type_number window_update = refl
type_of_byte-type_number ping = refl
type_of_byte-type_number go_away = refl

pub frame_bytes-header :
    (version : ℕ) (type : FrameType) (flag : Flag) (stream_id len : ℕ)
    → version < 256
    → frame_bytes version type flag stream_id len ≡ header version type flag stream_id len
unfolding frame_bytes
frame_bytes-header version type flag stream_id len h = rw (
  put_uint32_be_lem,
  put_uint32_be_lem,
  put_uint16_be_lem,
  flag_bytes flag,
  put_uint8_lem [] version h,
  put_uint8_lem (version ∷ []) (type_number type) (type_number-lt type),
)

be32-back :
    (n : ℕ)
    → n < 2 ^ 32
    → ((n / 2 ^ 24 % 256 * 256 + n / 2 ^ 16 % 256) * 256 + n / 2 ^ 8 % 256) * 256 + n % 256 ≡ n
be32-back n h = omega arith

parse_frame-header :
    (version : ℕ) (type : FrameType) (flag : Flag) (stream_id len : ℕ) (rest : List ℕ)
    → stream_id < 2 ^ 32
    → len < 2 ^ 32
    → parse_frame (header version type flag stream_id len ++ rest)
      ≡ some (record {
        version = version;
        type = type;
        flags = flag_number flag;
        stream_id = stream_id;
        length_field = len;
      })
unfolding parse_frame
parse_frame-header version type flag stream_id len rest hs hl =
    ground (arith, type_of_byte-type_number type, be32-back stream_id hs, be32-back len hl)

-- `parseFrame` reads back every header that `frameBytes` writes, field by field, whatever follows
-- it, for a version of one byte and a stream id and a length of four.
pub parse_frame-frame_bytes :
    (version : ℕ) (type : FrameType) (flag : Flag) (stream_id len : ℕ) (rest : List ℕ)
    → version < 256
    → stream_id < 2 ^ 32
    → len < 2 ^ 32
    → (parse_frame (frame_bytes version type flag stream_id len ++ rest)
        ≡ some (record {
          version = version;
          type = type;
          flags = flag_number flag;
          stream_id = stream_id;
          length_field = len;
        }))
      × (length (frame_bytes version type flag stream_id len) ≡ header_length)
parse_frame-frame_bytes version type flag stream_id len rest hv hs hl =
    rw (frame_bytes-header version type flag stream_id len hv)
      (parse_frame-header version type flag stream_id len rest hs hl, refl)

-- `parseFrame` refuses exactly the inputs that are too short or have an unknown type byte.
pub parse_frame-none_iff :
    (bytes : List ℕ)
    → (parse_frame bytes ≡ none) ↔ ((length bytes < header_length) ⊎ (3 < get_or bytes 1 0))
unfolding parse_frame
parse_frame-none_iff bytes = (λ h. ground arith, λ h. ground arith)
