-- ===== src/ProtocolMuxer/Multiselect/Parser.antt =====
-- include/libp2p/protocol_muxer/multiselect/parser.hpp and src/protocol_muxer/multiselect/parser.cpp:
-- the messages in the bytes that arrive. `levels` is what the code's kMaxRecursionDepth leaves for
-- messages in a message: a parser at depth `d` has the level 3 - d. The loops run on the length of
-- the data, of which each round takes a byte at least or ends the loop. The asserts of the code are
-- preconditions.
pub mod Lines
pub mod Types
pub mod Bytes
pub mod RoundTrip
pub mod Nested
pub mod Pieces
use cpp_libp2p.Base.{
  ℕ, zero, suc, ◌+◌, ◌-◌, Bool, true, false, not, ◌&&◌, ◌||◌, Option, none, some, List, [], ◌∷◌,
  ◌++◌, ltb, leb, ◌==◌, if◌then◌else◌, length, get_or, take, is_empty,
}
use cpp_libp2p.Basic.Collector.{FixedBufferCollector, new_collector, default_memory_threshold}
use cpp_libp2p.Basic.Collector
use cpp_libp2p.Basic.VarintPrefixReader.{VarintPrefixReader, State, new_varint_reader}
use cpp_libp2p.Basic.VarintPrefixReader
use cpp_libp2p.ProtocolMuxer.Multiselect.{Message, MessageType, na, new_line}

pub record Parser : Type 0 where
  pub messages : List Message
  pub msg_buffer : FixedBufferCollector
  pub state : State
  pub varint_reader : VarintPrefixReader
  pub expected_msg_size : ℕ

abbrev pub max_recursion_depth : ℕ
max_recursion_depth = 3

abbrev pub max_len_bytes : ℕ
max_len_bytes = 2

abbrev pub new_parser : Parser
new_parser = record {
  messages = [];
  msg_buffer = new_collector 0 default_memory_threshold;
  state = State.underflow;
  varint_reader = new_varint_reader;
  expected_msg_size = 0;
}

abbrev pub is_underflow : State → Bool
is_underflow State.underflow = true
is_underflow State.ready = false
is_underflow State.overflow = false
is_underflow State.error = false

unfoldable pub bytes_needed : Parser → ℕ
bytes_needed p =
    if is_underflow p.state then if ltb 0 p.expected_msg_size then p.expected_msg_size else 1 else 0

abbrev pub reset : Parser → Parser
reset p = record p {
  messages = [];
  msg_buffer = Collector.reset p.msg_buffer;
  state = State.underflow;
  varint_reader = new_varint_reader;
  expected_msg_size = 0;
}

abbrev pub equal_text : List ℕ → List ℕ → Bool
equal_text [] [] = true
equal_text [] (y ∷ ys) = false
equal_text (x ∷ xs) [] = false
equal_text (x ∷ xs) (y ∷ ys) = (x == y) && equal_text xs ys

-- `starts_with` of `processReceivedMessages`.
unfoldable pub starts_with : List ℕ → List ℕ → Bool
starts_with x y =
    if ltb (length x) (length y) || is_empty x || is_empty y
    then false
    else equal_text (take (length y) x) y

-- "/multistream".
abbrev pub protocol_prefix : List ℕ
protocol_prefix = 47 ∷ 109 ∷ 117 ∷ 108 ∷ 116 ∷ 105 ∷ 115 ∷ 116 ∷ 114 ∷ 101 ∷ 97 ∷ 109 ∷ []

-- "/multistream/1.".
abbrev pub this_protocol : List ℕ
this_protocol = protocol_prefix ++ 47 ∷ 49 ∷ 46 ∷ []

-- "/multistream-select/0.".
abbrev pub compatible_protocol : List ℕ
compatible_protocol = protocol_prefix ++ 45 ∷ 115 ∷ 101 ∷ 108 ∷ 101 ∷ 99 ∷ 116 ∷ 47 ∷ 48 ∷ 46 ∷ []

unfoldable pub check_na : Message → Message
check_na m = if equal_text m.content na then record m { type = MessageType.na_message } else m

-- The type of the first message.
unfoldable pub check_version : Message → Message
check_version m =
    if starts_with m.content this_protocol || starts_with m.content compatible_protocol
    then record m { type = MessageType.right_protocol_version }
    else if starts_with m.content protocol_prefix
    then record m { type = MessageType.wrong_protocol_version }
    else check_na m

unfoldable pub check_na_all : List Message → List Message
check_na_all [] = []
check_na_all (m ∷ ms) = check_na m ∷ check_na_all ms

-- The loop of `processReceivedMessages`.
unfoldable pub assign_types : List Message → List Message
assign_types [] = []
assign_types (m ∷ ms) = check_version m ∷ check_na_all ms

unfoldable pub process_received_messages : Parser → Parser
process_received_messages p = record p { messages = assign_types p.messages; state = State.ready }

-- `split` of `readFinished`, from the line so far: the lines that are not empty.
unfoldable pub split_lines : List ℕ → List ℕ → List (List ℕ)
split_lines line [] = if is_empty line then [] else line ∷ []
split_lines line (b ∷ bs) =
    let next = split_lines [] bs in
    let same = split_lines (line ++ b ∷ []) bs in
    if b == new_line then if is_empty line then next else line ∷ next else same

unfoldable pub protocol_names : List (List ℕ) → List Message
protocol_names [] = []
protocol_names (l ∷ ls) =
    record { type = MessageType.protocol_name; content = l } ∷ protocol_names ls

-- `readFinished`, from what is done with messages in the message.
unfoldable pub read_finished : (List ℕ → Parser → Parser) → List ℕ → Parser → Parser
read_finished parse_nested msg p =
    let size = p.expected_msg_size in
    if not (get_or msg (size - 1) 0 == new_line)
    then record p {
      messages = p.messages ++ record { type = MessageType.invalid_message; content = msg } ∷ [];
      state = State.ready;
    }
    else if ltb 1 size && (get_or msg (size - 2) 0 == new_line)
    then parse_nested (take (size - 1) msg) p
    else process_received_messages (record p {
      messages = p.messages ++ protocol_names (split_lines [] (take (size - 1) msg));
    })

-- What is left of the data, and the parser.
unfoldable pub consume_data : (List ℕ → Parser → Parser) → List ℕ → Parser → List ℕ × Parser
consume_data parse_nested bytes p =
    let (msg, left, buffer) = Collector.add bytes p.msg_buffer in
    let p1 : Parser = record p { msg_buffer = buffer } in
    elim msg [ none ↦ (left, p1) | some m ↦ (left, read_finished parse_nested m p1) ]

-- The number of a message is read: nothing, or a message of this size.
unfoldable pub size_is_read : ℕ → Parser → Parser
size_is_read size p =
    if size == 0
    then reset p
    else record p { expected_msg_size = size; msg_buffer = Collector.expect size p.msg_buffer }

-- The part of the loop of `consume` that reads the number in front of a message.
unfoldable pub consume_size : List ℕ → Parser → List ℕ × Parser
consume_size bytes p =
    let (s, left, reader) = VarintPrefixReader.consume bytes p.varint_reader in
    let p1 : Parser = record p { varint_reader = reader } in
    let too_long : Parser = record p1 { state = State.overflow } in
    if ltb max_len_bytes reader.got_bytes then (left, too_long) else elim s [
      | State.underflow ↦ if reader.got_bytes == max_len_bytes then (left, too_long) else (left, p1)
      | State.ready ↦ (left, size_is_read reader.value p1)
      | State.overflow ↦ (left, too_long)
      | State.error ↦ (left, too_long)
    ]

unfoldable pub consume_loop : (List ℕ → Parser → Parser) → ℕ → List ℕ → Parser → List ℕ × Parser
consume_loop parse_nested zero bytes p = (bytes, p)
consume_loop parse_nested (suc fuel) bytes p =
    let round =
      (if p.expected_msg_size == 0
        then consume_size bytes p
        else consume_data parse_nested bytes p) in
    let rest = consume_loop parse_nested fuel round.0 round.1 in
    if is_empty bytes || not (is_underflow p.state) then (bytes, p) else rest

-- `consume`: the state that is told, what is left of the data, the parser.
unfoldable pub consume_with : (List ℕ → Parser → Parser) → List ℕ → Parser → State × List ℕ × Parser
consume_with parse_nested bytes p =
    let (left, p1) = consume_loop parse_nested (length bytes) bytes p in
    elim p.state [
      | State.ready ↦ (State.error, bytes, p)
      | State.underflow ↦ (p1.state, left, p1)
      | State.overflow ↦ (p1.state, left, p1)
      | State.error ↦ (p1.state, left, p1)
    ]

-- The loop of `parseNestedMessages`: the messages of the nested parser, and what is left.
unfoldable pub nested_loop :
    (List ℕ → Parser → Parser) → ℕ → List ℕ → Parser → List Message → List ℕ × List Message
nested_loop parse_nested zero bytes nested messages = (bytes, messages)
nested_loop parse_nested (suc fuel) bytes nested messages =
    let (s, left, nested1) = consume_with parse_nested bytes nested in
    let after_ready =
      nested_loop parse_nested fuel left (reset nested1) (messages ++ nested1.messages) in
    let rest = nested_loop parse_nested fuel left nested1 messages in
    if is_empty bytes || not (is_underflow nested.state) then (bytes, messages) else elim s [
      | State.ready ↦ after_ready
      | State.underflow ↦ rest
      | State.overflow ↦ rest
      | State.error ↦ rest
    ]

unfoldable pub parse_nested_messages : ℕ → List ℕ → Parser → Parser
parse_nested_messages zero bytes p = record p { state = State.overflow }
parse_nested_messages (suc levels) bytes p =
    let (left, messages) =
      nested_loop (parse_nested_messages levels) (length bytes) bytes new_parser p.messages in
    record p { messages = messages; state = if is_empty left then State.ready else State.error }

unfoldable pub consume : ℕ → List ℕ → Parser → State × List ℕ × Parser
consume levels bytes p = consume_with (parse_nested_messages levels) bytes p
