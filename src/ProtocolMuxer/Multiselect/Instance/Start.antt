-- ===== src/ProtocolMuxer/Multiselect/Instance/Start.antt =====
-- Two MultiselectInstances: how a negotiation starts, with the multistream version or without it,
-- and the whole of it.
use cpp_libp2p.Base.{ℕ, true, false, Bool, some, List, [], ◌∷◌}
use cpp_libp2p.Basic.Collector.{FixedBufferCollector}
use cpp_libp2p.Basic.Collector
use cpp_libp2p.ProtocolMuxer.Multiselect.{protocol_id}
use cpp_libp2p.ProtocolMuxer.Multiselect.Serializing.Wire.{wire}
use cpp_libp2p.ProtocolMuxer.Multiselect.Parser.{new_parser}
use cpp_libp2p.ProtocolMuxer.Multiselect.Instance.{
  MultiselectInstance, WriteRequest, select_one_of, new_instance,
}
use cpp_libp2p.ProtocolMuxer.Multiselect.Instance.Rounds.{server, client}
use cpp_libp2p.ProtocolMuxer.Multiselect.Instance.Session.{Session}

-- Both sides start.
abbrev pub both_start : Bool → List (List ℕ) → List (List ℕ) → ℕ → ℕ → Session
both_start negotiate_multiselect cs ss cb cb' = record {
  client = select_one_of cs true negotiate_multiselect cb new_instance;
  server = select_one_of ss false negotiate_multiselect cb' new_instance;
  to_server = [];
  to_client = [];
}

-- The buffer of an instance that starts.
abbrev first_buffer : FixedBufferCollector
first_buffer = Collector.reset (new_parser.msg_buffer)

abbrev proposing : Bool → List (List ℕ) → List ℕ → ℕ → MultiselectInstance
proposing negotiated cs bytes cb = record (client cs 0 (some cb) 0 first_buffer) {
  multistream_negotiated = negotiated;
  is_writing = true;
  write_requests = WriteRequest.write 0 bytes ∷ [];
}

abbrev opening : List (List ℕ) → ℕ → MultiselectInstance
opening ss cb = record (server ss 0 (some cb) false first_buffer) {
  is_writing = true;
  write_requests = WriteRequest.write 0 (wire protocol_id) ∷ [];
}
