-- ===== src/Muxer/Yamux/Frame.antt =====
-- include/libp2p/muxer/yamux/yamux_frame.hpp and src/muxer/yamux/yamux_frame.cpp: the header of a
-- yamux frame. Reserving space for the payload changes no byte and is left out.
pub mod RoundTrip
use cpp_libp2p.Base.{
  ℕ, ◌+◌, ◌*◌, ◌%◌, ◌^◌, bit_and, Bool, not, Option, none, some, List, [], ◌∷◌, ltb, ◌==◌,
  if◌then◌else◌, length, get_or,
}
use cpp_libp2p.Common.Byteutil.{put_uint8, put_uint16_be, put_uint32_be}

pub data FrameType : Type 0 where
  data_frame window_update ping go_away : FrameType

pub data Flag : Type 0 where
  none_flag syn ack fin rst : Flag

pub data GoAwayError : Type 0 where
  normal protocol_error internal_error : GoAwayError

pub record YamuxFrame : Type 0 where
  pub version : ℕ
  pub type : FrameType
  pub flags : ℕ
  pub stream_id : ℕ
  pub length_field : ℕ

abbrev pub header_length : ℕ
header_length = 12

abbrev pub default_version : ℕ
default_version = 0

abbrev pub initial_window_size : ℕ
initial_window_size = 256 * 1024

-- The casts of the enums to their numbers.
abbrev pub type_number : FrameType → ℕ
type_number data_frame = 0
type_number window_update = 1
type_number ping = 2
type_number go_away = 3

abbrev pub flag_number : Flag → ℕ
flag_number none_flag = 0
flag_number syn = 1
flag_number ack = 2
flag_number fin = 4
flag_number rst = 8

abbrev pub error_number : GoAwayError → ℕ
error_number normal = 0
error_number protocol_error = 1
error_number internal_error = 2

unfoldable pub frame_bytes : ℕ → FrameType → Flag → ℕ → ℕ → List ℕ
frame_bytes version type flag stream_id length =
    put_uint32_be
      (put_uint32_be
        (put_uint16_be (put_uint8 (put_uint8 [] version) (type_number type))
          (flag_number flag % 2 ^ 8))
        stream_id)
      length

unfoldable pub flag_is_set : Flag → YamuxFrame → Bool
flag_is_set flag frame = not (bit_and (flag_number flag) frame.flags == 0)

unfoldable pub new_stream_msg : ℕ → List ℕ
new_stream_msg stream_id = frame_bytes default_version data_frame syn stream_id 0

unfoldable pub ack_stream_msg : ℕ → List ℕ
ack_stream_msg stream_id = frame_bytes default_version data_frame ack stream_id 0

unfoldable pub close_stream_msg : ℕ → List ℕ
close_stream_msg stream_id = frame_bytes default_version data_frame fin stream_id 0

unfoldable pub reset_stream_msg : ℕ → List ℕ
reset_stream_msg stream_id = frame_bytes default_version data_frame rst stream_id 0

unfoldable pub ping_out_msg : ℕ → List ℕ
ping_out_msg value = frame_bytes default_version ping syn 0 value

unfoldable pub ping_response_msg : ℕ → List ℕ
ping_response_msg value = frame_bytes default_version ping ack 0 value

unfoldable pub data_msg : ℕ → ℕ → List ℕ
data_msg stream_id data_length =
    frame_bytes default_version data_frame none_flag stream_id data_length

unfoldable pub go_away_msg : GoAwayError → List ℕ
go_away_msg error = frame_bytes default_version go_away none_flag 0 (error_number error)

unfoldable pub window_update_msg : ℕ → ℕ → List ℕ
window_update_msg stream_id window_delta =
    frame_bytes default_version window_update none_flag stream_id window_delta

-- The switch over the second byte.
abbrev pub type_of_byte : ℕ → Option FrameType
type_of_byte b =
    if b == 0
    then some data_frame
    else if b == 1
    then some window_update
    else if b == 2
    then some ping
    else if b == 3
    then some go_away
    else none

-- `ntohs` and `ntohl` of the bytes from `i` on: the first byte is the highest.
abbrev pub read_uint16 : List ℕ → ℕ → ℕ
read_uint16 bytes i = get_or bytes i 0 * 256 + get_or bytes (i + 1) 0

abbrev pub read_uint32 : List ℕ → ℕ → ℕ
read_uint32 bytes i =
    ((get_or bytes i 0 * 256 + get_or bytes (i + 1) 0) * 256 + get_or bytes (i + 2) 0) * 256
    + get_or bytes (i + 3) 0

unfoldable pub parse_frame : List ℕ → Option YamuxFrame
parse_frame bytes =
    if ltb (length bytes) header_length then none else elim (type_of_byte (get_or bytes 1 0)) [
      | none ↦ none
      | some type ↦ some (record {
        version = get_or bytes 0 0;
        type = type;
        flags = read_uint16 bytes 2;
        stream_id = read_uint32 bytes 4;
        length_field = read_uint32 bytes 8;
      })
    ]
