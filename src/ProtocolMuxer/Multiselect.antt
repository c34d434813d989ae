-- ===== src/ProtocolMuxer/Multiselect.antt =====
-- include/libp2p/protocol_muxer/multiselect/common.hpp: the constants and the messages of the
-- multiselect protocol. Text is the list of its bytes.
pub mod Serializing
pub mod Parser
pub mod Instance
use cpp_libp2p.Base.{ℕ, List, [], ◌∷◌}

-- "/multistream/1.0.0".
abbrev pub protocol_id : List ℕ
protocol_id =
    47 ∷ 109 ∷ 117 ∷ 108 ∷ 116 ∷ 105 ∷ 115 ∷ 116 ∷ 114 ∷ 101 ∷ 97 ∷ 109 ∷ 47 ∷ 49 ∷ 46 ∷ 48 ∷ 46
    ∷ 48 ∷ []

abbrev pub max_message_size : ℕ
max_message_size = 65535

abbrev pub max_varint_size : ℕ
max_varint_size = 3

abbrev pub new_line : ℕ
new_line = 0x0a

-- "na".
abbrev pub na : List ℕ
na = 110 ∷ 97 ∷ []

-- Message::Type.
pub data MessageType : Type 0 where
  invalid_message : MessageType
  right_protocol_version : MessageType
  wrong_protocol_version : MessageType
  ls_message : MessageType
  na_message : MessageType
  protocol_name : MessageType

pub record Message : Type 0 where
  pub type : MessageType
  pub content : List ℕ

-- ProtocolMuxer::Error.
pub data MuxerError : Type 0 where
  internal_error : MuxerError
  protocol_violation : MuxerError
  negotiation_failed : MuxerError
