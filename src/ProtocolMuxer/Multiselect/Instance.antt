-- ===== src/ProtocolMuxer/Multiselect/Instance.antt =====
-- include/libp2p/protocol_muxer/multiselect/multiselect_instance.hpp and
-- src/protocol_muxer/multiselect/multiselect_instance.cpp: one negotiation. What the connection is
-- asked, and has not done yet, is a part of the state: a read, and writes in their order, each with
-- the round of its callback, which does nothing in another round. Callbacks are numbers. The asserts
-- of the code are preconditions.
pub mod Handlers
pub mod Channel
pub mod Receiving
pub mod Rounds
pub mod Turns
pub mod Session
pub mod Negotiation
pub mod Versions
pub mod Start
use cpp_libp2p.Base.{
  ℕ, zero, suc, ◌+◌, Bool, true, false, not, ◌&&◌, ◌||◌, Option, none, some, List, [], ◌∷◌, ◌++◌,
  ltb, leb, ◌==◌, if◌then◌else◌, length, get_elem?, is_empty,
}
use cpp_libp2p.Basic.VarintPrefixReader.{State}
use cpp_libp2p.ProtocolMuxer.Multiselect.{
  Message, MessageType, MuxerError, max_message_size, na, protocol_id,
}
use cpp_libp2p.ProtocolMuxer.Multiselect.Serializing.{create_message, create_messages}
use cpp_libp2p.ProtocolMuxer.Multiselect.Parser.{
  Parser, bytes_needed, equal_text, is_underflow, max_recursion_depth, new_parser,
}
use cpp_libp2p.ProtocolMuxer.Multiselect.Parser

-- An error of the negotiation, or one of the connection.
pub data Failure : Type 0 where
  muxer : MuxerError → Failure
  connection : ℕ → Failure

pub data Negotiated : Type 0 where
  selected : List ℕ → Negotiated
  failed : Failure → Negotiated

-- A write, or a callback that is put off with an error.
pub data WriteRequest : Type 0 where
  write : ℕ → List ℕ → WriteRequest
  defer_write_callback : ℕ → Failure → WriteRequest

-- `timeout` tells whether the handle of the timeout is held, and `told` is what the owner is told
-- in `instanceClosed`: the callbacks and the outcomes.
pub record MultiselectInstance : Type 0 where
  pub current_round : ℕ
  pub protocols : List (List ℕ)
  pub callback : Option ℕ
  pub is_initiator : Bool
  pub multistream_negotiated : Bool
  pub wait_for_protocol_reply : Bool
  pub closed : Bool
  pub current_protocol : ℕ
  pub wait_for_reply_sent : Option ℕ
  pub parser : Parser
  pub write_queue : List (List ℕ)
  pub is_writing : Bool
  pub timeout : Bool
  pub read_request : Option (ℕ × ℕ)
  pub write_requests : List WriteRequest
  pub told : List (Option ℕ × Negotiated)

abbrev pub new_instance : MultiselectInstance
new_instance = record {
  current_round = 0;
  protocols = [];
  callback = none;
  is_initiator = false;
  multistream_negotiated = false;
  wait_for_protocol_reply = false;
  closed = false;
  current_protocol = 0;
  wait_for_reply_sent = none;
  parser = new_parser;
  write_queue = [];
  is_writing = false;
  timeout = false;
  read_request = none;
  write_requests = [];
  told = [];
}

-- `close`.
unfoldable pub close : Negotiated → MultiselectInstance → MultiselectInstance
close result s = record s {
  closed = true;
  timeout = false;
  current_round = suc s.current_round;
  write_queue = [];
  callback = none;
  told = s.told ++ (s.callback, result) ∷ [];
}

-- `send(Packet)`.
unfoldable pub send_packet : List ℕ → MultiselectInstance → MultiselectInstance
send_packet packet s =
    if s.is_writing then record s { write_queue = s.write_queue ++ packet ∷ [] } else record s {
      write_requests = s.write_requests ++ write s.current_round packet ∷ [];
      is_writing = true;
    }

-- `send(outcome::result<MsgBuf>)`.
unfoldable pub send : Option (List ℕ) → MultiselectInstance → MultiselectInstance
send none s = record s {
  write_requests =
      s.write_requests
      ++ defer_write_callback s.current_round (muxer MuxerError.internal_error) ∷ [];
}
send (some msg) s = send_packet msg s

-- `sendNA`; the message is made once, which is not seen here.
unfoldable pub send_na : MultiselectInstance → MultiselectInstance
send_na s = send (create_message na) s

-- The protocol that is proposed.
unfoldable pub proposal : List ℕ → MultiselectInstance → Option (List ℕ)
proposal protocol s =
    if s.multistream_negotiated
    then create_message protocol
    else create_messages (protocol_id ∷ protocol ∷ []) false

-- Whether there was one more protocol.
unfoldable pub send_proposal : MultiselectInstance → Bool × MultiselectInstance
send_proposal s = elim (get_elem? s.protocols s.current_protocol) [
  | none ↦ (false, s)
  | some protocol ↦ (true, record (send (proposal protocol s) s) { wait_for_protocol_reply = true })
]

unfoldable pub send_opening : MultiselectInstance → MultiselectInstance
send_opening s = if s.is_initiator then (send_proposal s).1 else send (create_message protocol_id) s

-- `receive`; in the invalid states the error is logged.
unfoldable pub receive : MultiselectInstance → MultiselectInstance
receive s =
    let needed = bytes_needed s.parser in
    if s.closed || not (is_underflow s.parser.state)
    then s
    else if ltb max_message_size needed
    then close (failed (muxer MuxerError.protocol_violation)) s
    else record s { read_request = some (s.current_round, needed) }

-- `selectOneOf`.
unfoldable pub select_one_of :
    List (List ℕ) → Bool → Bool → ℕ → MultiselectInstance → MultiselectInstance
select_one_of protocols is_initiator negotiate_multiselect cb s =
    let s1 : MultiselectInstance = record s {
      protocols = protocols;
      callback = some cb;
      is_initiator = is_initiator;
      multistream_negotiated = not negotiate_multiselect;
      wait_for_protocol_reply = false;
      closed = false;
      current_protocol = 0;
      wait_for_reply_sent = none;
      parser = Parser.reset s.parser;
      write_queue = [];
      is_writing = false;
      timeout = true;
    } in
    let s2 =
      (if is_initiator
        then (send_proposal s1).1
        else if negotiate_multiselect
        then send_opening s1
        else s1) in
    receive s2
