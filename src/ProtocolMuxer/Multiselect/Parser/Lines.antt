-- ===== src/ProtocolMuxer/Multiselect/Parser/Lines.antt =====
-- Parser: `readFinished` of the text of one protocol, and of messages in a message.
use cpp_libp2p.Base.{
  ℕ, zero, suc, ◌+◌, ◌-◌, ◌<◌, ◌≡◌, refl, ap, ◌∙◌, true, false, List, [], ◌∷◌, ◌++◌, arith, length,
  length-append, get_or, take, take-append_exact, All, append_assoc, append-nil, ◌==◌, ltb,
}
use cpp_libp2p.Basic.VarintPrefixReader.{State}
use cpp_libp2p.ProtocolMuxer.Multiselect.{Message, MessageType, new_line}
use cpp_libp2p.ProtocolMuxer.Multiselect.Parser.{
  Parser, split_lines, protocol_names, read_finished, assign_types, process_received_messages,
}

-- A text that stands in one line, and is not empty.
pub record IsLine (line : List ℕ) : Type 0 where
  pub one_line : All (λ b. (b == new_line) ≡ false) line
  pub some_text : 0 < length line

abbrev pub message_of : List ℕ → Message
message_of line = record { type = MessageType.protocol_name; content = line }

split_step :
    (acc : List ℕ) (b : ℕ) (bs : List ℕ)
    → (b == new_line) ≡ false
    → split_lines acc (b ∷ bs) ≡ split_lines (acc ++ b ∷ []) bs
unfolding split_lines
split_step acc b bs h = rw h refl

split_rest :
    (acc line : List ℕ)
    → All (λ b. (b == new_line) ≡ false) line
    → 0 < length (acc ++ line)
    → split_lines acc line ≡ (acc ++ line) ∷ []
unfolding split_lines
split_rest [] [] h k = absurd (omega arith)
split_rest (a ∷ acc) [] h k = rw (append-nil (a ∷ acc)) refl
split_rest acc (b ∷ bs) h k =
    let same : (acc ++ b ∷ []) ++ bs ≡ acc ++ b ∷ bs = append_assoc acc (b ∷ []) bs in
    split_step acc b bs h.0
    ∙ split_rest (acc ++ b ∷ []) bs h.1 (omega (arith, k, ap length same))
    ∙ ap (λ l. l ∷ []) same

split_line : (line : List ℕ) → IsLine line → split_lines [] line ≡ line ∷ []
split_line line h = split_rest [] line h.one_line h.some_text

get_last : (xs : List ℕ) (y d : ℕ) → get_or (xs ++ y ∷ []) (length xs) d ≡ y
get_last [] y d = refl
get_last (x ∷ xs) y d = get_last xs y d

no_new_line_at :
    (line more : List ℕ) (i : ℕ)
    → All (λ b. (b == new_line) ≡ false) line
    → i < length line
    → (get_or (line ++ more) i 0 == new_line) ≡ false
no_new_line_at [] more i h k = absurd (omega arith)
no_new_line_at (b ∷ bs) more zero h k = h.0
no_new_line_at (b ∷ bs) more (suc i) h k = no_new_line_at bs more i h.1 (omega arith)

-- One protocol.
pub read_finished-line :
    (parse_nested : List ℕ → Parser → Parser) (line : List ℕ) (p : Parser)
    → IsLine line
    → p.expected_msg_size ≡ length line + 1
    → read_finished parse_nested (line ++ new_line ∷ []) p ≡ record p {
      messages = assign_types (p.messages ++ message_of line ∷ []);
      state = State.ready;
    }
unfolding read_finished process_received_messages protocol_names
read_finished-line parse_nested line p h size =
    let i1 : p.expected_msg_size - 1 ≡ length line = omega arith in
    let last : get_or (line ++ new_line ∷ []) (length line) 0 ≡ new_line =
      get_last line new_line 0 in
    let before : (get_or (line ++ new_line ∷ []) (p.expected_msg_size - 2) 0 == new_line) ≡ false =
      no_new_line_at line (new_line ∷ []) (p.expected_msg_size - 2) h.one_line
        (let k = h.some_text in omega arith) in
    let text : take (length line) (line ++ new_line ∷ []) ≡ line =
      take-append_exact line (new_line ∷ []) in
    let big : ltb 1 p.expected_msg_size ≡ true = (let k = h.some_text in ground arith) in
    let lines = split_line line h in rw (i1, last, before, big, text, lines) refl

get_or-append : (xs ys : List ℕ) (i d : ℕ) → i < length xs → get_or (xs ++ ys) i d ≡ get_or xs i d
get_or-append [] ys i d h = absurd (omega arith)
get_or-append (x ∷ xs) ys zero d h = refl
get_or-append (x ∷ xs) ys (suc i) d h = get_or-append xs ys i d (omega arith)

-- Messages in a message: the last byte is cut off.
pub read_finished-nested :
    (parse_nested : List ℕ → Parser → Parser) (inner : List ℕ) (p : Parser)
    → p.expected_msg_size ≡ length inner + 2
    → read_finished parse_nested ((inner ++ new_line ∷ []) ++ new_line ∷ []) p
      ≡ parse_nested (inner ++ new_line ∷ []) p
unfolding read_finished
read_finished-nested parse_nested inner p size =
    let outer : List ℕ = inner ++ new_line ∷ [] in
    let len : length outer ≡ length inner + 1 =
      omega (arith, length-append inner (new_line ∷ [])) in
    let i1 : p.expected_msg_size - 1 ≡ length outer = omega (arith, len) in
    let i2 : p.expected_msg_size - 2 ≡ length inner = omega arith in
    let last : get_or (outer ++ new_line ∷ []) (length outer) 0 ≡ new_line =
      get_last outer new_line 0 in
    let before : get_or (outer ++ new_line ∷ []) (length inner) 0 ≡ new_line =
      get_or-append outer (new_line ∷ []) (length inner) 0 (omega (arith, len))
      ∙ get_last inner new_line 0 in
    let text : take (length outer) (outer ++ new_line ∷ []) ≡ outer =
      take-append_exact outer (new_line ∷ []) in
    let big : ltb 1 p.expected_msg_size ≡ true = ground arith in
    rw (i1, i2, last, before, big, text) refl
