-- ===== src/ProtocolMuxer/Multiselect/Serializing.antt =====
-- include/libp2p/protocol_muxer/multiselect/serializing.hpp: the messages as they are sent.
pub mod Wire
use cpp_libp2p.Base.{
  ℕ, zero, suc, ◌+◌, ◌-◌, ◌/◌, ◌^◌, bit_and, bit_or, Bool, true, false, Option, none, some, List,
  [], ◌∷◌, ◌++◌, ltb, leb, ◌==◌, if◌then◌else◌, length,
}
use cpp_libp2p.ProtocolMuxer.Multiselect.{max_message_size, max_varint_size, new_line}

-- The loop of `appendVarint`. Ten rounds are enough for a size of 64 bits.
unfoldable pub append_varint_loop : ℕ → List ℕ → ℕ → List ℕ
append_varint_loop zero buffer size = buffer
append_varint_loop (suc fuel) buffer size =
    let byte = bit_and size 0x7f in
    let size' = size / 2 ^ 7 in
    let byte' = (if size' == 0 then byte else bit_or byte 0x80) in
    let rest = append_varint_loop fuel (buffer ++ byte' ∷ []) size' in
    if ltb 0 size' then rest else buffer ++ byte' ∷ []

unfoldable pub append_varint : List ℕ → ℕ → List ℕ
append_varint buffer size = append_varint_loop 10 buffer size

-- `none` is INTERNAL_ERROR, here and below.
unfoldable pub append_protocol : List ℕ → List ℕ → Option (List ℕ)
append_protocol buffer protocol =
    let msg_size = length protocol + 1 in
    let buffer' = append_varint buffer msg_size ++ protocol ++ new_line ∷ [] in
    if ltb (max_message_size - max_varint_size) msg_size
    then none
    else if leb (length buffer') max_message_size
    then some buffer'
    else none

-- `createMessage` of one protocol.
unfoldable pub create_message : List ℕ → Option (List ℕ)
create_message protocol = append_protocol [] protocol

-- The loop of `appendProtocolList`.
unfoldable pub append_protocols : List ℕ → List (List ℕ) → Option (List ℕ)
append_protocols buffer [] = some buffer
append_protocols buffer (p ∷ ps) = elim (append_protocol buffer p) [
  | none ↦ none
  | some buffer' ↦ append_protocols buffer' ps
]

-- The static buffer of a nested message has room for `capacity` bytes; a vector has no limit.
unfoldable pub append_protocol_list : Option ℕ → List ℕ → List (List ℕ) → Bool → Option (List ℕ)
append_protocol_list capacity buffer protocols append_final_new_line =
    elim (append_protocols buffer protocols) [
      | none ↦ none
      | some buffer' ↦
          if append_final_new_line
          then elim capacity [
            | none ↦ some (buffer' ++ new_line ∷ [])
            | some n ↦ if ltb (length buffer') n then some (buffer' ++ new_line ∷ []) else none
          ]
          else some buffer'
    ]

-- `createMessage` of several protocols.
unfoldable pub create_messages : List (List ℕ) → Bool → Option (List ℕ)
create_messages protocols true =
    elim (append_protocol_list (some (max_message_size + max_varint_size)) [] protocols true) [
      | none ↦ none
      | some tmp_buf ↦ some (append_varint [] (length tmp_buf) ++ tmp_buf)
    ]
create_messages protocols false = append_protocol_list none [] protocols false
