-- ===== src/ProtocolMuxer/Multiselect/Parser/Nested.antt =====
-- Parser: `parseNestedMessages` reads back a list of protocols that is sent in one message.
use cpp_libp2p.Base.{
  ℕ, zero, suc, ◌+◌, ◌^◌, ◌≤◌, ◌<◌, ◌≡◌, refl, sym, ap, ◌∙◌, true, List, [], ◌∷◌, ◌++◌, arith,
  length, length-append, append_assoc, append-nil, some, All,
}
use cpp_libp2p.Basic.Collector.{FixedBufferCollector, new_collector, default_memory_threshold}
use cpp_libp2p.Basic.Collector
use cpp_libp2p.Basic.VarintPrefixReader.{State}
use cpp_libp2p.Multi.Uvarint.{from_number}
use cpp_libp2p.ProtocolMuxer.Multiselect.{Message, new_line}
use cpp_libp2p.ProtocolMuxer.Multiselect.Serializing.{create_messages}
use cpp_libp2p.ProtocolMuxer.Multiselect.Serializing.Wire.{wire, wires, create_messages-wires}
use cpp_libp2p.ProtocolMuxer.Multiselect.Parser.{
  Parser, new_parser, reset, consume_with, nested_loop, parse_nested_messages, consume,
  check_version, read_finished,
}
use cpp_libp2p.ProtocolMuxer.Multiselect.Parser.Lines.{IsLine, message_of, read_finished-nested}
use cpp_libp2p.ProtocolMuxer.Multiselect.Parser.Bytes.{fresh, with_body, consume_with-message}
use cpp_libp2p.ProtocolMuxer.Multiselect.Parser.RoundTrip.{
  Reads, typed, after_line, line_is_read, line_size,
}

abbrev pub AllLines : List (List ℕ) → Type 0
AllLines [] = Unit {0}
AllLines (l ∷ ls) = IsLine l × AllLines ls

nested_done :
    (parse_nested : List ℕ → Parser → Parser) (fuel : ℕ) (p : Parser) (messages : List Message)
    → nested_loop parse_nested fuel [] p messages ≡ ([], messages)
unfolding nested_loop
nested_done parse_nested zero p messages = refl
nested_done parse_nested (suc fuel) p messages = refl

nested_round :
    (parse_nested : List ℕ → Parser → Parser) (fuel : ℕ) (bytes rest : List ℕ) (p q : Parser)
    (messages : List Message)
    → 0 < length bytes
    → p.state ≡ State.underflow
    → consume_with parse_nested bytes p ≡ (State.ready, rest, q)
    → nested_loop parse_nested (suc fuel) bytes p messages
      ≡ nested_loop parse_nested fuel rest (reset q) (messages ++ q.messages)
unfolding nested_loop
nested_round parse_nested fuel [] rest p q messages h s e = absurd (omega arith)
nested_round parse_nested fuel (x ∷ xs) rest p q messages h s e = ground arith

wire_size : (line : List ℕ) → length line + 1 ≤ length (wire line)
wire_size line = omega (
  arith,
  line_size line,
  length-append (from_number (length (line ++ new_line ∷ []))) (line ++ new_line ∷ []),
)

all_read :
    (parse_nested : List ℕ → Parser → Parser) (fuel : ℕ) (lines : List (List ℕ))
    (b : FixedBufferCollector) (messages : List Message)
    → AllLines lines
    → length (wires lines) < 2 ^ 14
    → length (wires lines) ≤ fuel
    → nested_loop parse_nested fuel (wires lines) (fresh [] b) messages
      ≡ ([], messages ++ typed lines)
all_read parse_nested fuel [] b messages h small enough =
    nested_done parse_nested fuel (fresh [] b) messages
    ∙ ap (λ ms. ([], ms)) (sym (append-nil messages))
all_read parse_nested zero (l ∷ ls) b messages h small enough =
    absurd (omega (arith, wire_size l, length-append (wire l) (wires ls)))
all_read parse_nested (suc fuel) (l ∷ ls) b messages h small enough =
    let len = length-append (wire l) (wires ls) in
    let size = wire_size l in
    let q = after_line l (wires ls) b in
    nested_round parse_nested fuel (wire l ++ wires ls) (wires ls) (fresh [] b) q messages
      (omega (arith, len, size)) refl
      (line_is_read parse_nested l (wires ls) b h.0 (omega (arith, small, len, size)))
    ∙ all_read parse_nested fuel ls (Collector.reset q.msg_buffer) (messages ++ q.messages) h.1
        (omega (arith, small, len)) (omega (arith, enough, len, size))
    ∙ ap (λ ms. ([], ms)) (append_assoc messages (check_version (message_of l) ∷ []) (typed ls))

nested_lem :
    (levels : ℕ) (bytes : List ℕ) (p : Parser) (messages : List Message)
    → nested_loop (parse_nested_messages levels) (length bytes) bytes new_parser p.messages
      ≡ ([], messages)
    → parse_nested_messages (suc levels) bytes p
      ≡ record p { messages = messages; state = State.ready }
unfolding parse_nested_messages
nested_lem levels bytes p messages e = ground arith

-- The messages end with a line end.
last_line :
    (l : List ℕ) (ls : List (List ℕ)) → (inner : List ℕ) × (wires (l ∷ ls) ≡ inner ++ new_line ∷ [])
last_line l [] =
    let n = length (l ++ new_line ∷ []) in
    (from_number n ++ l, append-nil (wire l) ∙ sym (append_assoc (from_number n) l (new_line ∷ [])))
last_line l (m ∷ ms) =
    let (inner, e) = last_line m ms in
    (wire l ++ inner, ap (λ x. wire l ++ x) e ∙ sym (append_assoc (wire l) inner (new_line ∷ [])))

small_lines :
    (lines : List (List ℕ)) → length (wires lines) < 2 ^ 14 → All (λ l. length l + 1 ≤ 65532) lines
small_lines [] h = tt
small_lines (l ∷ ls) h =
    let len = length-append (wire l) (wires ls) in
    (omega (arith, h, len, wire_size l), small_lines ls (omega (arith, h, len)))

-- The body of the message, behind its size.
body_is_read :
    (levels : ℕ) (line : List ℕ) (lines : List (List ℕ)) (p : Parser)
    → IsLine line
    → AllLines lines
    → length (wires (line ∷ lines)) + 1 < 2 ^ 14
    → p.expected_msg_size ≡ length (wires (line ∷ lines) ++ new_line ∷ [])
    → p.messages ≡ []
    → read_finished (parse_nested_messages (suc levels)) (wires (line ∷ lines) ++ new_line ∷ []) p
      ≡ record p { messages = typed (line ∷ lines); state = State.ready }
body_is_read levels line lines p h hs small size none_yet =
    let nested = parse_nested_messages (suc levels) in
    let all = wires (line ∷ lines) in
    let (inner, e) = last_line line lines in
    let len = length-append all (new_line ∷ []) in
    let len' = length-append inner (new_line ∷ []) in
    ap (λ x. read_finished nested (x ++ new_line ∷ []) p) e
    ∙ read_finished-nested nested inner p (omega (arith, size, len, len', ap length e))
    ∙ ap (λ x. nested x p) (sym e)
    ∙ nested_lem levels all p (typed (line ∷ lines)) (
        all_read (parse_nested_messages levels) (length all) (line ∷ lines)
          (new_collector 0 default_memory_threshold) p.messages (h, hs) (omega arith) (omega arith)
        ∙ ap (λ ms. ([], ms ++ typed (line ∷ lines))) none_yet)

-- A list of texts, one at least, is read back from what `createMessage` makes of it as one message
-- with messages in it: each text is a message with its own type. The texts are not empty and have
-- no line end, all of them fit in fourteen bits of size, and the parser has a level left.
pub consume-create_messages :
    (levels : ℕ) (line : List ℕ) (lines : List (List ℕ)) (rest : List ℕ)
    → IsLine line
    → AllLines lines
    → length (wires (line ∷ lines)) + 1 < 2 ^ 14
    → (msg : List ℕ) × (create_messages (line ∷ lines) true ≡ some msg)
      × Reads (typed (line ∷ lines)) rest (consume (suc levels) (msg ++ rest) new_parser)
unfolding consume
consume-create_messages levels line lines rest h hs small =
    let b = new_collector 0 default_memory_threshold in
    let body : List ℕ = wires (line ∷ lines) ++ new_line ∷ [] in
    let len = length-append (wires (line ∷ lines)) (new_line ∷ []) in
    let q : Parser = record (with_body body rest [] b) {
      messages = typed (line ∷ lines);
      state = State.ready;
    } in
    let nested = parse_nested_messages (suc levels) in
    let e : consume_with nested (from_number (length body) ++ body ++ rest) new_parser
        ≡ (State.ready, rest, q) =
      ap (λ x. consume_with nested x new_parser)
        (append_assoc (from_number (length body)) body rest)
      ∙ consume_with-message nested body rest [] b q (omega (arith, len)) (omega (arith, len))
          (body_is_read levels line lines (with_body body rest [] b) h hs small refl refl) refl in
    (
      from_number (length body) ++ body,
      create_messages-wires (line ∷ lines) (small_lines (line ∷ lines) (omega arith)) (omega arith),
      rw e (record { told = refl; left = refl; messages = refl; state = refl }),
    )
