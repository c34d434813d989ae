-- ===== src/ProtocolMuxer/Multiselect/Instance/Rounds.antt =====
-- MultiselectInstance: what each side does with a message, and what it writes.
use cpp_libp2p.Base.{
  ℕ, suc, ◌+◌, ◌<◌, ◌≡◌, ◌^◌, refl, ap, ◌∙◌, true, false, Bool, Option, none, some, List, [], ◌∷◌,
  ◌++◌, arith, length, get_elem?, Bool-cases, inl, inr,
}
use cpp_libp2p.Basic.Collector.{FixedBufferCollector}
use cpp_libp2p.ProtocolMuxer.Multiselect.{Message, MessageType, MuxerError, na}
use cpp_libp2p.ProtocolMuxer.Multiselect.Serializing.{create_message}
use cpp_libp2p.ProtocolMuxer.Multiselect.Serializing.Wire.{wire}
use cpp_libp2p.ProtocolMuxer.Multiselect.Parser.{
  check_version, equal_text, check_na, starts_with, bytes_needed,
}
use cpp_libp2p.ProtocolMuxer.Multiselect.Parser
use cpp_libp2p.ProtocolMuxer.Multiselect.Parser.Lines.{IsLine, message_of}
use cpp_libp2p.ProtocolMuxer.Multiselect.Parser.Types.{equal_text_sound}
use cpp_libp2p.ProtocolMuxer.Multiselect.Parser.Bytes.{fresh}
use cpp_libp2p.ProtocolMuxer.Multiselect.Parser.RoundTrip.{create_message_fits}
use cpp_libp2p.ProtocolMuxer.Multiselect.Instance.{
  MultiselectInstance, WriteRequest, Negotiated, Failure, send_na, send, send_packet, send_proposal,
  proposal,
}
use cpp_libp2p.ProtocolMuxer.Multiselect.Instance.Handlers.{
  process_messages, process_all, process_message, handle_proposal, handle_reply, handle_na,
  index_of,
}

-- The name of a protocol: a short text that is not taken for a version or for "na".
pub record IsName (line : List ℕ) : Type 0 where
  pub one_line : IsLine line
  pub short : length line + 1 < 2 ^ 14
  pub name : check_version (message_of line) ≡ message_of line

pub index_of_sound :
    (j : ℕ) (p : List ℕ) (ps : List (List ℕ)) (i : ℕ)
    → index_of j p ps ≡ some i
    → (k : ℕ) × (i ≡ j + k) × (get_elem? ps k ≡ some p)
unfolding index_of
index_of_sound j p [] i h = cc
index_of_sound j p (q ∷ ps) i h = elim (Bool-cases (equal_text q p)) [
  | inl y ↦ (0, ground arith, ap some (equal_text_sound q p y))
  | inr n ↦
      let (k, e, at) = index_of_sound (suc j) p ps i (ground arith) in (suc k, omega (arith, e), at)
]

-- The side that answers, between two proposals.
abbrev pub server : List (List ℕ) → ℕ → Option ℕ → Bool → FixedBufferCollector → MultiselectInstance
server ss round cb negotiated b = record {
  current_round = round;
  protocols = ss;
  callback = cb;
  is_initiator = false;
  multistream_negotiated = negotiated;
  wait_for_protocol_reply = false;
  closed = false;
  current_protocol = 0;
  wait_for_reply_sent = none;
  parser = fresh [] b;
  write_queue = [];
  is_writing = false;
  timeout = true;
  read_request = some (round, 1);
  write_requests = [];
  told = [];
}

-- The side that proposes, when its proposal of the protocol `i` is written.
abbrev pub client : List (List ℕ) → ℕ → Option ℕ → ℕ → FixedBufferCollector → MultiselectInstance
client cs round cb i b = record {
  current_round = round;
  protocols = cs;
  callback = cb;
  is_initiator = true;
  multistream_negotiated = true;
  wait_for_protocol_reply = true;
  closed = false;
  current_protocol = i;
  wait_for_reply_sent = none;
  parser = fresh [] b;
  write_queue = [];
  is_writing = false;
  timeout = true;
  read_request = some (round, 1);
  write_requests = [];
  told = [];
}

abbrev writing : List ℕ → MultiselectInstance → MultiselectInstance
writing bytes s = record s {
  is_writing = true;
  write_requests = WriteRequest.write s.current_round bytes ∷ [];
}

equal_text_same : (xs : List ℕ) → equal_text xs xs ≡ true
equal_text_same [] = refl
equal_text_same (x ∷ xs) = let e = equal_text_same xs in ground arith

with_result :
    (o : Option Negotiated) (s : MultiselectInstance)
    → elim o as (λ x. Option Negotiated × MultiselectInstance) [
      | some r ↦ (some r, s)
      | none ↦ (none, s)
    ]
      ≡ (o, s)
with_result none s = refl
with_result (some r) s = refl

process_one : (m : Message) (s : MultiselectInstance) → process_all (m ∷ []) s ≡ process_message m s
unfolding process_all
process_one m s = with_result (process_message m s).0 (process_message m s).1

-- What is left to do when the one message of the parser is dealt with.
pub dealt_with :
    (m : Message) (o : Option Negotiated) (s r : MultiselectInstance)
    → s.parser.messages ≡ m ∷ []
    → process_message m s ≡ (o, r)
    → process_messages s ≡ (o, record r { parser = Parser.reset r.parser })
unfolding process_messages
dealt_with m o s r e k =
    let all : process_all s.parser.messages s ≡ (o, r) =
      ap (λ ms. process_all ms s) e ∙ process_one m s ∙ k in
    ap (λ x. (x.0, record x.1 { parser = Parser.reset x.1.parser })) all

-- The message goes on the wire at once.
abbrev pub sending : List ℕ → MultiselectInstance → MultiselectInstance
sending bytes s = record s {
  is_writing = true;
  write_requests = s.write_requests ++ WriteRequest.write s.current_round bytes ∷ [];
}

pub proposal_accepted :
    (line : List ℕ) (i : ℕ) (s : MultiselectInstance)
    → length line + 1 < 2 ^ 14
    → s.is_initiator ≡ false
    → s.is_writing ≡ false
    → index_of 0 line s.protocols ≡ some i
    → process_message (message_of line) s
      ≡ (none, record (sending (wire line) s) { wait_for_reply_sent = some i; write_queue = [] })
unfolding process_message handle_proposal send send_packet
proposal_accepted line i s short init idle_now e =
    let made = create_message_fits line short in ground arith

pub na_made : create_message na ≡ some (wire na)
na_made = create_message_fits na (omega arith)

pub proposal_refused :
    (line : List ℕ) (s : MultiselectInstance)
    → s.is_initiator ≡ false
    → s.is_writing ≡ false
    → s.wait_for_reply_sent ≡ none
    → index_of 0 line s.protocols ≡ none
    → process_message (message_of line) s ≡ (none, sending (wire na) s)
unfolding process_message handle_proposal send_na send send_packet
proposal_refused line s init idle_now no_reply e = let made = na_made in ground arith

pub proposal_agreed :
    (line : List ℕ) (s : MultiselectInstance)
    → s.is_initiator ≡ true
    → s.wait_for_protocol_reply ≡ true
    → get_elem? s.protocols s.current_protocol ≡ some line
    → process_message (message_of line) s ≡ (some (Negotiated.selected line), s)
unfolding process_message handle_proposal handle_reply
proposal_agreed line s init waits e = let same = equal_text_same line in ground arith

abbrev pub na_message : Message
na_message = record { type = MessageType.na_message; content = na }

pub next_proposed :
    (line : List ℕ) (s : MultiselectInstance)
    → length line + 1 < 2 ^ 14
    → s.is_initiator ≡ true
    → s.is_writing ≡ false
    → s.multistream_negotiated ≡ true
    → get_elem? s.protocols (suc s.current_protocol) ≡ some line
    → process_message na_message s ≡ (
      none,
      record (sending (wire line) s) {
        current_protocol = suc s.current_protocol;
        wait_for_protocol_reply = true;
      },
    )
unfolding process_message handle_na send_proposal proposal send send_packet
next_proposed line s short init idle_now negotiated e =
    let made = create_message_fits line short in ground arith

pub none_left :
    (s : MultiselectInstance)
    → s.is_initiator ≡ true
    → get_elem? s.protocols (suc s.current_protocol) ≡ none
    → process_message na_message s ≡ (
      some (Negotiated.failed (Failure.muxer MuxerError.negotiation_failed)),
      record s { current_protocol = suc s.current_protocol },
    )
unfolding process_message handle_na send_proposal
none_left s init e = ground arith
