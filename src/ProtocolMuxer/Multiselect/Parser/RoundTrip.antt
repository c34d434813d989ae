-- ===== src/ProtocolMuxer/Multiselect/Parser/RoundTrip.antt =====
-- Parser: it reads back what the functions of serializing.hpp write.
use cpp_libp2p.Base.{
  ℕ, ◌+◌, ◌^◌, ◌<◌, ◌≡◌, refl, ap, ◌∙◌, List, [], ◌∷◌, ◌++◌, arith, length, length-append,
  append_assoc, some,
}
use cpp_libp2p.Basic.Collector.{FixedBufferCollector, new_collector, default_memory_threshold}
use cpp_libp2p.Basic.VarintPrefixReader.{State}
use cpp_libp2p.Multi.Uvarint.{from_number}
use cpp_libp2p.Multi.Uvarint.RoundTrip.{short_number}
use cpp_libp2p.ProtocolMuxer.Multiselect.{Message, new_line}
use cpp_libp2p.ProtocolMuxer.Multiselect.Serializing.{create_message}
use cpp_libp2p.ProtocolMuxer.Multiselect.Serializing.Wire.{wire, create_message-wire}
use cpp_libp2p.ProtocolMuxer.Multiselect.Parser.{
  Parser, new_parser, assign_types, check_na_all, check_version, consume_with,
  parse_nested_messages, consume,
}
use cpp_libp2p.ProtocolMuxer.Multiselect.Parser.Lines.{IsLine, message_of, read_finished-line}
use cpp_libp2p.ProtocolMuxer.Multiselect.Parser.Types.{IsTyped, check_version-IsTyped}
use cpp_libp2p.ProtocolMuxer.Multiselect.Parser.Bytes.{fresh, with_body, consume_with-message}

-- The parser has read the messages, and leaves the rest.
pub record Reads (all : List Message) (rest : List ℕ) (r : State × List ℕ × Parser) : Type 0 where
  pub told : r.0 ≡ State.ready
  pub left : r.1 ≡ rest
  pub messages : r.2.messages ≡ all
  pub state : r.2.state ≡ State.ready

abbrev pub typed : List (List ℕ) → List Message
typed [] = []
typed (l ∷ ls) = check_version (message_of l) ∷ typed ls

pub one_type : (m : Message) → assign_types (m ∷ []) ≡ check_version m ∷ []
unfolding assign_types check_na_all
one_type m = refl

pub line_size : (line : List ℕ) → length (line ++ new_line ∷ []) ≡ length line + 1
line_size line = length-append line (new_line ∷ [])

-- The parser of one text, whatever it does with messages in messages.
abbrev pub after_line : List ℕ → List ℕ → FixedBufferCollector → Parser
after_line line rest b = record (with_body (line ++ new_line ∷ []) rest [] b) {
  messages = check_version (message_of line) ∷ [];
  state = State.ready;
}

pub line_is_read :
    (parse_nested : List ℕ → Parser → Parser) (line rest : List ℕ) (b : FixedBufferCollector)
    → IsLine line
    → length line + 1 < 2 ^ 14
    → consume_with parse_nested (wire line ++ rest) (fresh [] b)
      ≡ (State.ready, rest, after_line line rest b)
line_is_read parse_nested line rest b h small =
    let body : List ℕ = line ++ new_line ∷ [] in
    ap (λ x. consume_with parse_nested x (fresh [] b))
      (append_assoc (from_number (length body)) body rest)
    ∙ consume_with-message parse_nested body rest [] b (after_line line rest b)
        (omega (arith, line_size line)) (omega (arith, line_size line))
        (read_finished-line parse_nested line (with_body body rest [] b) h (line_size line)
          ∙ ap (λ ms. record (with_body body rest [] b) { messages = ms; state = State.ready })
              (one_type (message_of line)))
        refl

pub create_message_fits :
    (line : List ℕ) → length line + 1 < 2 ^ 14 → create_message line ≡ some (wire line)
create_message_fits line small =
    let n = length (line ++ new_line ∷ []) in
    let short = (short_number n (omega (arith, line_size line))).1 in
    create_message-wire line (omega arith)
      (omega (arith, short, line_size line, length-append (from_number n) (line ++ new_line ∷ [])))

-- A text is read back from what `createMessage` makes of it, whatever follows it, as one message with
-- this text. Its type is told by the text alone: the right version when it begins with
-- "/multistream/1." or "/multistream-select/0.", else a wrong version when it begins with
-- "/multistream", the refusal when it is "na", and the name of a protocol in all other cases. The
-- text is not empty, has no line end, and fits the two bytes that the parser takes for its size.
pub consume-create_message :
    (levels : ℕ) (line rest : List ℕ)
    → IsLine line
    → length line + 1 < 2 ^ 14
    → (msg : List ℕ) × (create_message line ≡ some msg)
      × (m : Message) × IsTyped line m
      × Reads (m ∷ []) rest (consume levels (msg ++ rest) new_parser)
unfolding consume
consume-create_message levels line rest h small = (
  wire line,
  create_message_fits line small,
  check_version (message_of line),
  check_version-IsTyped line,
  rw
      (line_is_read (parse_nested_messages levels) line rest
        (new_collector 0 default_memory_threshold) h small)
      (record { told = refl; left = refl; messages = refl; state = refl }),
)
