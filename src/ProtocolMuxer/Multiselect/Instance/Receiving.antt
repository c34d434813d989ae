-- ===== src/ProtocolMuxer/Multiselect/Instance/Receiving.antt =====
-- MultiselectInstance: a message that arrives is read in pieces, and then dealt with.
use cpp_libp2p.Base.{
  ℕ, suc, ◌+◌, ◌≤◌, ◌<◌, ◌≡◌, ◌%◌, ◌/◌, ◌^◌, refl, sym, ap, ◌∙◌, subst, true, false, none, some,
  List, [], ◌∷◌, ◌++◌, arith, inl, inr, lt_or_le, leb, length, length-append, take-append_exact,
  drop-append_exact, append_assoc, ◌==◌,
}
use cpp_libp2p.Basic.Collector.{FixedBufferCollector}
use cpp_libp2p.Basic.VarintPrefixReader.{State}
use cpp_libp2p.Multi.Uvarint.{from_number}
use cpp_libp2p.Multi.Uvarint.RoundTrip.{one_byte, two_bytes}
use cpp_libp2p.ProtocolMuxer.Multiselect.{new_line}
use cpp_libp2p.ProtocolMuxer.Multiselect.Serializing.Wire.{wire}
use cpp_libp2p.ProtocolMuxer.Multiselect.Parser
use cpp_libp2p.ProtocolMuxer.Multiselect.Parser.{
  bytes_needed, is_underflow, consume_with, parse_nested_messages, check_version,
}
use cpp_libp2p.ProtocolMuxer.Multiselect.Parser.Lines.{IsLine, message_of, read_finished-line}
use cpp_libp2p.ProtocolMuxer.Multiselect.Parser.Bytes.{fresh, waiting, with_body}
use cpp_libp2p.ProtocolMuxer.Multiselect.Parser.RoundTrip.{after_line, line_size, one_type}
use cpp_libp2p.ProtocolMuxer.Multiselect.Parser.Pieces.{
  half, short_size, first_of_two, second_of_two, body_piece,
}
use cpp_libp2p.ProtocolMuxer.Multiselect.Instance.{MultiselectInstance, receive}
use cpp_libp2p.ProtocolMuxer.Multiselect.Instance.Handlers.{
  on_bytes_read, read_done, go_on, process_messages,
}
use cpp_libp2p.ProtocolMuxer.Multiselect.Instance.Channel.{receive_some, read_times}

-- The negotiation goes on, and the instance waits for bytes.
pub record IsOpen (s : MultiselectInstance) : Type 0 where
  pub not_closed : s.closed ≡ false
  pub no_reply : s.wait_for_reply_sent ≡ none

-- The instance with this parser and this read.
abbrev pub asking : ℕ → Parser.Parser → MultiselectInstance → MultiselectInstance
asking needed p s = record s { parser = p; read_request = some (s.current_round, needed) }

abbrev pub idle : Parser.Parser → MultiselectInstance → MultiselectInstance
idle p s = record s { parser = p; read_request = none }

read_enough :
    (bytes rest : List ℕ) (p : Parser.Parser) (s : MultiselectInstance)
    → receive_some (asking (length bytes) p s, bytes ++ rest)
      ≡ (on_bytes_read bytes (idle p s), rest)
unfolding receive_some read_done
read_enough bytes rest p s =
    let enough : leb (length bytes) (length (bytes ++ rest)) ≡ true =
      (let k = length-append bytes rest in ground arith) in
    let same : (s.current_round == s.current_round) ≡ true = ground arith in
    rw (enough, same, take-append_exact bytes rest, drop-append_exact bytes rest) refl

more_needed :
    (bytes : List ℕ) (needed : ℕ) (p q : Parser.Parser) (s : MultiselectInstance)
    → IsOpen s
    → Parser.consume 3 bytes p ≡ (State.underflow, [], q)
    → q.state ≡ State.underflow
    → bytes_needed q ≡ needed
    → needed ≤ 65535
    → on_bytes_read bytes (idle p s) ≡ asking needed q s
unfolding on_bytes_read go_on receive
more_needed bytes needed p q s h e u k le =
    let h1 = h.not_closed in let h2 = h.no_reply in ground arith

message_complete :
    (bytes : List ℕ) (p q : Parser.Parser) (s : MultiselectInstance)
    → Parser.consume 3 bytes p ≡ (State.ready, [], q)
    → on_bytes_read bytes (idle p s) ≡ go_on (process_messages (idle q s))
unfolding on_bytes_read
message_complete bytes p q s e = ground arith

waiting_needs : (n : ℕ) (b : FixedBufferCollector) → 0 < n → bytes_needed (waiting n [] b) ≡ n
unfolding bytes_needed
waiting_needs n b pos = ground arith

half_needs : (n : ℕ) (b : FixedBufferCollector) → bytes_needed (half n [] b) ≡ 1
unfolding bytes_needed
half_needs n b = refl

-- A read that leaves the parser waiting.
one_more :
    (bytes rest : List ℕ) (needed : ℕ) (p q : Parser.Parser) (s : MultiselectInstance)
    → IsOpen s
    → consume_with (parse_nested_messages 3) bytes p ≡ (State.underflow, [], q)
    → q.state ≡ State.underflow
    → bytes_needed q ≡ needed
    → needed ≤ 65535
    → receive_some (asking (length bytes) p s, bytes ++ rest) ≡ (asking needed q s, rest)
unfolding Parser.consume
one_more bytes rest needed p q s h e u k le =
    read_enough bytes rest p s ∙ ap (λ x. (x, rest)) (more_needed bytes needed p q s h e u k le)

abbrev pub ReadsTo : MultiselectInstance × List ℕ → MultiselectInstance × List ℕ → Type 0
ReadsTo x y = (k : ℕ) × (read_times k x ≡ y)

ReadsTo-now : (x : MultiselectInstance × List ℕ) → ReadsTo x x
unfolding read_times
ReadsTo-now x = (0, refl)

ReadsTo-step :
    (x y z : MultiselectInstance × List ℕ) → receive_some x ≡ y → ReadsTo y z → ReadsTo x z
unfolding read_times
ReadsTo-step x y z e (k, f) = (suc k, ap (read_times k) e ∙ f)

-- The reads of the size of a message.
size_reads :
    (n : ℕ) (rest : List ℕ) (b : FixedBufferCollector) (s : MultiselectInstance)
    (z : MultiselectInstance × List ℕ)
    → IsOpen s
    → 0 < n
    → n < 2 ^ 14
    → ReadsTo (asking n (waiting n [] b) s, rest) z
    → ReadsTo (asking 1 (fresh [] b) s, from_number n ++ rest) z
size_reads n rest b s z h pos lt next = elim (lt_or_le n 128) [
  | inl small ↦
      let e = one_byte n small in
      rw e (
        ReadsTo-step (asking 1 (fresh [] b) s, n % 128 ∷ rest) (asking n (waiting n [] b) s, rest) z
          (one_more (n % 128 ∷ []) rest n (fresh [] b) (waiting n [] b) s h
            (short_size (parse_nested_messages 3) n [] b pos small) refl (waiting_needs n b pos)
            (omega arith))
          next)
  | inr le ↦
      let e = two_bytes n le lt in
      let first = (n % 128 + 128) in
      let second = (n / 128 % 128) in
      rw e (
        ReadsTo-step (asking 1 (fresh [] b) s, first ∷ second ∷ rest)
          (asking 1 (half n [] b) s, second ∷ rest) z
          (one_more (first ∷ []) (second ∷ rest) 1 (fresh [] b) (half n [] b) s h
            (first_of_two (parse_nested_messages 3) n [] b lt) refl (half_needs n b) (omega arith))
          (ReadsTo-step (asking 1 (half n [] b) s, second ∷ rest)
            (asking n (waiting n [] b) s, rest) z
            (one_more (second ∷ []) rest n (half n [] b) (waiting n [] b) s h
              (second_of_two (parse_nested_messages 3) n [] b le lt) refl (waiting_needs n b pos)
              (omega arith))
            next))
]

body_read :
    (line rest : List ℕ) (b : FixedBufferCollector) (s : MultiselectInstance)
    → IsLine line
    → let body = line ++ new_line ∷ [] in
      receive_some (asking (length body) (waiting (length body) [] b) s, body ++ rest)
      ≡ (go_on (process_messages (idle (after_line line [] b) s)), rest)
unfolding Parser.consume
body_read line rest b s h =
    let body : List ℕ = line ++ new_line ∷ [] in
    let p = waiting (length body) [] b in
    let read =
      read_finished-line (parse_nested_messages 3) line (with_body body [] [] b) h (line_size line)
      ∙ ap (λ ms. record (with_body body [] [] b) { messages = ms; state = State.ready })
          (one_type (message_of line)) in
    read_enough body rest p s
    ∙ ap (λ x. (x, rest))
        (message_complete body p (after_line line [] b) s (
          body_piece (parse_nested_messages 3) body [] b (after_line line [] b)
            (omega (arith, line_size line)) read refl))

-- The bytes of a text, read as the connection gives them, are dealt with as the one message that
-- they are, and what follows them is left.
pub message_is_read :
    (line rest : List ℕ) (b : FixedBufferCollector) (s : MultiselectInstance)
    → IsOpen s
    → IsLine line
    → length line + 1 < 2 ^ 14
    → ReadsTo
        (asking 1 (fresh [] b) s, wire line ++ rest)
        (go_on (process_messages (idle (after_line line [] b) s)), rest)
message_is_read line rest b s unclosed h small =
    let body : List ℕ = line ++ new_line ∷ [] in
    let n = length body in
    let z : MultiselectInstance × List ℕ =
      (go_on (process_messages (idle (after_line line [] b) s)), rest) in
    let assoc = append_assoc (from_number n) body rest in
    subst (λ x. ReadsTo (asking 1 (fresh [] b) s, x) z) (sym assoc)
      (size_reads n (body ++ rest) b s z unclosed (omega (arith, line_size line))
        (omega (arith, line_size line))
        (ReadsTo-step (asking n (waiting n [] b) s, body ++ rest) z z (body_read line rest b s h)
          (ReadsTo-now z)))
