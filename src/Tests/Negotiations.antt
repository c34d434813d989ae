-- ===== src/Tests/Negotiations.antt =====
-- Multiselect, with the reader of the number in front of a message.
use cpp_libp2p.Base.{ℕ, ◌≡◌, refl, true, some, List, [], ◌∷◌, ◌++◌, arith, length}
use cpp_libp2p.Basic.VarintPrefixReader
use cpp_libp2p.Basic.VarintPrefixReader.{State, new_varint_reader}
use cpp_libp2p.Basic.VarintPrefixReader.Reading
use cpp_libp2p.Multi.Uvarint.{from_number, encode_loop}
use cpp_libp2p.ProtocolMuxer.Multiselect.{Message, protocol_id}
use cpp_libp2p.ProtocolMuxer.Multiselect.Serializing.{create_message, create_messages}
use cpp_libp2p.ProtocolMuxer.Multiselect.Parser.{new_parser, consume}
use cpp_libp2p.ProtocolMuxer.Multiselect.Parser.Lines.{IsLine}
use cpp_libp2p.ProtocolMuxer.Multiselect.Parser.Types.{IsTyped}
use cpp_libp2p.ProtocolMuxer.Multiselect.Parser.RoundTrip
use cpp_libp2p.ProtocolMuxer.Multiselect.Parser.RoundTrip.{Reads, typed}
use cpp_libp2p.ProtocolMuxer.Multiselect.Parser.Nested
use cpp_libp2p.ProtocolMuxer.Multiselect.Instance.Handlers.{index_of}
use cpp_libp2p.ProtocolMuxer.Multiselect.Instance.Start
use cpp_libp2p.ProtocolMuxer.Multiselect.Instance.Session.{first_common}
use cpp_libp2p.ProtocolMuxer.Multiselect.Instance.Versions.{protocol_id-IsLine}

consume-from_number_example :
    VarintPrefixReader.consume (from_number 300 ++ 7 ∷ []) new_varint_reader
    ≡ (State.ready, 7 ∷ [], Reading.done 300 (length (from_number 300)))
consume-from_number_example = Reading.consume-from_number 300 (7 ∷ []) (omega arith)

-- "/a".
abbrev a_line : List ℕ
a_line = 47 ∷ 97 ∷ []

a_line-IsLine : IsLine a_line
a_line-IsLine = record { one_line = (refl, (refl, tt)); some_text = omega arith }

consume-create_message_example :
    (msg : List ℕ) × (create_message protocol_id ≡ some msg)
    × (m : Message) × IsTyped protocol_id m
    × Reads (m ∷ []) (5 ∷ []) (consume 3 (msg ++ 5 ∷ []) new_parser)
consume-create_message_example =
    RoundTrip.consume-create_message 3 protocol_id (5 ∷ []) protocol_id-IsLine (omega arith)

consume-create_messages_example :
    (msg : List ℕ) × (create_messages (a_line ∷ a_line ∷ []) true ≡ some msg)
    × Reads (typed (a_line ∷ a_line ∷ [])) [] (consume 3 (msg ++ []) new_parser)
unfolding from_number encode_loop
consume-create_messages_example =
    Nested.consume-create_messages 2 a_line (a_line ∷ []) [] a_line-IsLine (a_line-IsLine, tt)
      (omega arith)

-- "/b".
abbrev b_line : List ℕ
b_line = 47 ∷ 98 ∷ []

-- The second protocol of the client is agreed on.
b_is_common : first_common (a_line ∷ b_line ∷ []) (b_line ∷ []) ≡ some b_line
unfolding index_of
b_is_common = refl
