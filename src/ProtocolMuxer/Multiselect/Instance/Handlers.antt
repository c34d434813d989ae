-- ===== src/ProtocolMuxer/Multiselect/Instance/Handlers.antt =====
-- MultiselectInstance: what it does when a write or a read is done, and at the timeout.
use cpp_libp2p.Base.{
  ℕ, suc, true, false, Option, none, some, List, [], ◌∷◌, ◌==◌, if◌then◌else◌, get_elem?,
}
use cpp_libp2p.Basic.VarintPrefixReader.{State}
use cpp_libp2p.ProtocolMuxer.Multiselect.{Message, MessageType, MuxerError}
use cpp_libp2p.ProtocolMuxer.Multiselect.Serializing.{create_message}
use cpp_libp2p.ProtocolMuxer.Multiselect.Parser.{
  Parser, bytes_needed, equal_text, is_underflow, max_recursion_depth, new_parser,
}
use cpp_libp2p.ProtocolMuxer.Multiselect.Parser
use cpp_libp2p.ProtocolMuxer.Multiselect.Instance.{
  MultiselectInstance, Failure, Negotiated, close, send_packet, send, send_na, send_proposal,
  receive, failed, selected, muxer, write, defer_write_callback,
}

-- `onDataWritten`; `none` is success.
unfoldable pub on_data_written : Option Failure → MultiselectInstance → MultiselectInstance
on_data_written (some error) s = close (failed error) (record s { is_writing = false })
on_data_written none s =
    let s1 : MultiselectInstance = record s { is_writing = false } in
    if s.closed then s1 else elim s.write_queue [
      | packet ∷ rest ↦ send_packet packet (record s1 { write_queue = rest })
      | [] ↦ elim s.wait_for_reply_sent [
        | none ↦ s1
        | some i ↦ elim (get_elem? s.protocols i) [
          | none ↦ s1
          | some protocol ↦ close (selected protocol) s1
        ]
      ]
    ]

-- The first of the protocols that is `protocol`, from the index `i`.
unfoldable pub index_of : ℕ → List ℕ → List (List ℕ) → Option ℕ
index_of i protocol [] = none
index_of i protocol (p ∷ ps) =
    let rest = index_of (suc i) protocol ps in if equal_text p protocol then some i else rest

-- `handleProposal` of the side that proposes.
unfoldable pub handle_reply : List ℕ → MultiselectInstance → Negotiated
handle_reply protocol s =
    let violation = failed (muxer MuxerError.protocol_violation) in
    if s.wait_for_protocol_reply
    then elim (get_elem? s.protocols s.current_protocol) [
      | none ↦ violation
      | some p ↦ if equal_text p protocol then selected protocol else violation
    ]
    else violation

-- `handleProposal`.
unfoldable pub handle_proposal :
    List ℕ → MultiselectInstance → Option Negotiated × MultiselectInstance
handle_proposal protocol s =
    if s.is_initiator
    then (some (handle_reply protocol s), s)
    else elim (index_of 0 protocol s.protocols) [
      | some i ↦ (
        none,
        send (create_message protocol)
            (record s { wait_for_reply_sent = some i; write_queue = [] }),
      )
      | none ↦ elim s.wait_for_reply_sent [ none ↦ (none, send_na s) | some i ↦ (none, s) ]
    ]

-- `handleNA`.
unfoldable pub handle_na : MultiselectInstance → Option Negotiated × MultiselectInstance
handle_na s =
    let (more, s1) = send_proposal (record s { current_protocol = suc s.current_protocol }) in
    if s.is_initiator
    then if more then (none, s1) else (some (failed (muxer MuxerError.negotiation_failed)), s1)
    else (some (failed (muxer MuxerError.protocol_violation)), s)

unfoldable pub process_message :
    Message → MultiselectInstance → Option Negotiated × MultiselectInstance
process_message m s = elim m.type [
  | MessageType.protocol_name ↦ handle_proposal m.content s
  | MessageType.right_protocol_version ↦ (none, record s { multistream_negotiated = true })
  | MessageType.na_message ↦ handle_na s
  | MessageType.wrong_protocol_version ↦ (some (failed (muxer MuxerError.protocol_violation)), s)
  | MessageType.invalid_message ↦ (some (failed (muxer MuxerError.protocol_violation)), s)
  | MessageType.ls_message ↦ (some (failed (muxer MuxerError.protocol_violation)), s)
]

-- The loop of `processMessages`, which a result ends.
unfoldable pub process_all :
    List Message → MultiselectInstance → Option Negotiated × MultiselectInstance
process_all [] s = (none, s)
process_all (m ∷ ms) s =
    let (result, s1) = process_message m s in
    let rest = process_all ms s1 in elim result [ some r ↦ (some r, s1) | none ↦ rest ]

unfoldable pub process_messages : MultiselectInstance → Option Negotiated × MultiselectInstance
process_messages s =
    let (result, s1) = process_all s.parser.messages s in
    (result, record s1 { parser = Parser.reset s1.parser })

-- The end of `onDataRead`: the negotiation ends, or goes on.
unfoldable pub go_on : Option Negotiated × MultiselectInstance → MultiselectInstance
go_on (some r, s) = close r s
go_on (none, s) = elim s.wait_for_reply_sent [ none ↦ receive s | some i ↦ s ]

-- `onDataRead` of the bytes that were asked for.
unfoldable pub on_bytes_read : List ℕ → MultiselectInstance → MultiselectInstance
on_bytes_read bytes s =
    let (state, left, parser) = Parser.consume max_recursion_depth bytes s.parser in
    let s1 : MultiselectInstance = record s { parser = parser } in
    let violation : Option Negotiated × MultiselectInstance =
      (some (failed (muxer MuxerError.protocol_violation)), s1) in
    elim state [
      | State.underflow ↦ go_on (none, s1)
      | State.ready ↦ go_on (process_messages s1)
      | State.overflow ↦ go_on violation
      | State.error ↦ go_on violation
    ]

-- `onTimeout`.
unfoldable pub on_timeout : MultiselectInstance → MultiselectInstance
on_timeout s = close (failed (muxer MuxerError.negotiation_failed)) s

-- The callback of `read`, with the bytes or an error: a callback of another round does nothing.
unfoldable pub read_done : Option Failure → List ℕ → MultiselectInstance → MultiselectInstance
read_done error bytes s = elim s.read_request [
  | none ↦ s
  | some (round, needed) ↦
      let s1 : MultiselectInstance = record s { read_request = none } in
      if round == s.current_round
      then elim error [ some e ↦ close (failed e) s1 | none ↦ on_bytes_read bytes s1 ]
      else s1
]

-- The callback of the first write, with an error if the connection has one.
unfoldable pub write_done : Option Failure → MultiselectInstance → MultiselectInstance
write_done error s = elim s.write_requests [
  | [] ↦ s
  | r ∷ rest ↦
      let s1 : MultiselectInstance = record s { write_requests = rest } in
      elim r [
        | write round bytes ↦ if round == s.current_round then on_data_written error s1 else s1
        | defer_write_callback round e ↦
            if round == s.current_round then on_data_written (some e) s1 else s1
      ]
]

-- The timer of the timeout, while its handle is held.
unfoldable pub timeout_done : MultiselectInstance → MultiselectInstance
timeout_done s = if s.timeout then on_timeout (record s { timeout = false }) else s
