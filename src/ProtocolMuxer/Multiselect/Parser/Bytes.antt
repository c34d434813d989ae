-- ===== src/ProtocolMuxer/Multiselect/Parser/Bytes.antt =====
-- Parser: `consume` of a whole message, the number in front of it included.
use cpp_libp2p.Base.{
  ℕ, zero, suc, ◌-◌, ◌≤◌, ◌<◌, ◌≡◌, ◌^◌, refl, ap, ◌∙◌, false, List, [], ◌∷◌, ◌++◌, arith, length,
  length-append, some, take, take-append_exact, drop-append_exact,
}
use cpp_libp2p.Basic.Collector.{FixedBufferCollector}
use cpp_libp2p.Basic.Collector
use cpp_libp2p.Basic.Collector.Laws.{add-Completes}
use cpp_libp2p.Basic.VarintPrefixReader.{State, VarintPrefixReader, new_varint_reader}
use cpp_libp2p.Basic.VarintPrefixReader
use cpp_libp2p.Basic.VarintPrefixReader.Reading.{done, consume-from_number}
use cpp_libp2p.Multi.Uvarint.{from_number}
use cpp_libp2p.Multi.Uvarint.RoundTrip.{short_number}
use cpp_libp2p.ProtocolMuxer.Multiselect.{Message}
use cpp_libp2p.ProtocolMuxer.Multiselect.Parser.{
  Parser, consume_size, consume_data, consume_loop, consume_with, size_is_read, read_finished,
  is_underflow,
}

-- A parser between two messages.
abbrev pub fresh : List Message → FixedBufferCollector → Parser
fresh messages msg_buffer = record {
  messages = messages;
  msg_buffer = msg_buffer;
  state = State.underflow;
  varint_reader = new_varint_reader;
  expected_msg_size = 0;
}

-- Waiting for the `n` bytes of a message.
abbrev pub waiting : ℕ → List Message → FixedBufferCollector → Parser
waiting n messages b = record {
  messages = messages;
  msg_buffer = Collector.expect n b;
  state = State.underflow;
  varint_reader = done n (length (from_number n));
  expected_msg_size = n;
}

pub size_step :
    (bytes rest : List ℕ) (n got : ℕ) (p : Parser)
    → VarintPrefixReader.consume bytes p.varint_reader ≡ (State.ready, rest, done n got)
    → got ≤ 2
    → consume_size bytes p ≡ (rest, size_is_read n (record p { varint_reader = done n got }))
unfolding consume_size
size_step bytes rest n got p e short = ground arith

pub size_known :
    (n : ℕ) (p : Parser)
    → 0 < n
    → size_is_read n p
      ≡ record p { expected_msg_size = n; msg_buffer = Collector.expect n p.msg_buffer }
unfolding size_is_read
size_known n p pos = ground arith

size_round :
    (n : ℕ) (rest : List ℕ) (messages : List Message) (b : FixedBufferCollector)
    → 0 < n
    → n < 2 ^ 14
    → consume_size (from_number n ++ rest) (fresh messages b) ≡ (rest, waiting n messages b)
size_round n rest messages b pos h =
    let got = length (from_number n) in
    size_step (from_number n ++ rest) rest n got (fresh messages b)
      (consume-from_number n rest (omega arith)) (short_number n h).1
    ∙ ap (λ q. (rest, q))
        (size_known n (record (fresh messages b) { varint_reader = done n got }) pos)

data_step :
    (parse_nested : List ℕ → Parser → Parser) (bytes rest body : List ℕ) (p : Parser)
    → (Collector.add bytes p.msg_buffer).0 ≡ some body
    → (Collector.add bytes p.msg_buffer).1 ≡ rest
    → consume_data parse_nested bytes p ≡ (
      rest,
      read_finished parse_nested body
          (record p { msg_buffer = (Collector.add bytes p.msg_buffer).2 }),
    )
unfolding consume_data
data_step parse_nested bytes rest body p e k = ground arith

-- The parser that reads the message `body`.
abbrev pub with_body : List ℕ → List ℕ → List Message → FixedBufferCollector → Parser
with_body body rest messages b = record (waiting (length body) messages b) {
  msg_buffer = (Collector.add (body ++ rest) (Collector.expect (length body) b)).2;
}

expected : (n : ℕ) (b : FixedBufferCollector) → (Collector.expect n b).expected_size ≡ n
unfolding Collector.expect
expected n b = refl

nothing_yet : (n : ℕ) (b : FixedBufferCollector) → (Collector.expect n b).buffer ≡ []
unfolding Collector.expect
nothing_yet n b = refl

pub data_round :
    (parse_nested : List ℕ → Parser → Parser) (body rest : List ℕ) (messages : List Message)
    (b : FixedBufferCollector)
    → 0 < length body
    → consume_data parse_nested (body ++ rest) (waiting (length body) messages b)
      ≡ (rest, read_finished parse_nested body (with_body body rest messages b))
data_round parse_nested body rest messages b pos =
    let n = length body in
    let c =
      add-Completes n (body ++ rest) (Collector.expect n b)
        (omega (arith, expected n b, ap length (nothing_yet n b))) pos
        (omega (arith, length-append body rest)) in
    let cut : take n (body ++ rest) ≡ body = take-append_exact body rest in
    let message : (Collector.add (body ++ rest) (Collector.expect n b)).0 ≡ some body =
      c.message ∙ ap (λ x. some (x ++ take n (body ++ rest))) (nothing_yet n b) ∙ ap some cut in
    data_step parse_nested (body ++ rest) rest body (waiting n messages b) message
      (c.left ∙ drop-append_exact body rest)

pub loop_stop :
    (parse_nested : List ℕ → Parser → Parser) (fuel : ℕ) (bytes : List ℕ) (p : Parser)
    → is_underflow p.state ≡ false
    → consume_loop parse_nested fuel bytes p ≡ (bytes, p)
unfolding consume_loop
loop_stop parse_nested zero bytes p h = refl
loop_stop parse_nested (suc fuel) bytes p h = ground arith

pub loop_size :
    (parse_nested : List ℕ → Parser → Parser) (fuel : ℕ) (bytes : List ℕ) (p : Parser)
    (r : List ℕ × Parser)
    → 0 < length bytes
    → p.state ≡ State.underflow
    → p.expected_msg_size ≡ 0
    → consume_size bytes p ≡ r
    → consume_loop parse_nested (suc fuel) bytes p ≡ consume_loop parse_nested fuel r.0 r.1
unfolding consume_loop
loop_size parse_nested fuel [] p r some_bytes s e k = absurd (omega arith)
loop_size parse_nested fuel (x ∷ xs) p r some_bytes s e k = ground arith

pub loop_data :
    (parse_nested : List ℕ → Parser → Parser) (fuel : ℕ) (bytes : List ℕ) (p : Parser)
    (r : List ℕ × Parser)
    → 0 < length bytes
    → p.state ≡ State.underflow
    → 0 < p.expected_msg_size
    → consume_data parse_nested bytes p ≡ r
    → consume_loop parse_nested (suc fuel) bytes p ≡ consume_loop parse_nested fuel r.0 r.1
unfolding consume_loop
loop_data parse_nested fuel [] p r some_bytes s e k = absurd (omega arith)
loop_data parse_nested fuel (x ∷ xs) p r some_bytes s e k = ground arith

pub told :
    (parse_nested : List ℕ → Parser → Parser) (bytes : List ℕ) (p : Parser) (r : List ℕ × Parser)
    → p.state ≡ State.underflow
    → consume_loop parse_nested (length bytes) bytes p ≡ r
    → consume_with parse_nested bytes p ≡ (r.1.state, r.0, r.1)
unfolding consume_with
told parse_nested bytes p r s e = ground arith

-- A parser that is between two messages takes the next one whole, and leaves what follows it.
pub consume_with-message :
    (parse_nested : List ℕ → Parser → Parser) (body rest : List ℕ) (messages : List Message)
    (b : FixedBufferCollector) (q : Parser)
    → 0 < length body
    → length body < 2 ^ 14
    → read_finished parse_nested body (with_body body rest messages b) ≡ q
    → is_underflow q.state ≡ false
    → consume_with parse_nested (from_number (length body) ++ (body ++ rest)) (fresh messages b)
      ≡ (q.state, rest, q)
consume_with-message parse_nested body rest messages b q pos h e stop =
    let n = length body in
    let bytes = from_number n ++ (body ++ rest) in
    let size : length bytes ≡ suc (suc (length bytes - 2)) =
      (let k = (short_number n h).0 in
        omega (arith, length-append (from_number n) (body ++ rest), length-append body rest)) in
    let fuel = length bytes - 2 in
    told parse_nested bytes (fresh messages b) (rest, q) refl
      (ap (λ k. consume_loop parse_nested k bytes (fresh messages b)) size
        ∙ loop_size parse_nested (suc fuel) bytes (fresh messages b)
            (body ++ rest, waiting n messages b) (omega (arith, size)) refl refl
            (size_round n (body ++ rest) messages b pos h)
        ∙ loop_data parse_nested fuel (body ++ rest) (waiting n messages b) (rest, q)
            (omega (arith, length-append body rest)) refl pos
            (data_round parse_nested body rest messages b pos ∙ ap (λ x. (rest, x)) e)
        ∙ loop_stop parse_nested fuel rest q stop)
