-- ===== src/ProtocolMuxer/Multiselect/Parser/Pieces.antt =====
-- Parser: `consume` of a message in the pieces that `bytesNeeded` asks for.
use cpp_libp2p.Base.{
  ℕ, zero, ◌+◌, ◌≤◌, ◌<◌, ◌≡◌, ◌/◌, ◌%◌, ◌^◌, refl, sym, ap, ◌∙◌, false, List, [], ◌∷◌, arith,
  length, append-nil,
}
use cpp_libp2p.Basic.Collector.{FixedBufferCollector}
use cpp_libp2p.Basic.VarintPrefixReader.{State, VarintPrefixReader}
use cpp_libp2p.Basic.VarintPrefixReader
use cpp_libp2p.Basic.VarintPrefixReader.Reading.{
  done, reading, consume-from_number, consume-first, consume-second,
}
use cpp_libp2p.Multi.Uvarint.{from_number}
use cpp_libp2p.Multi.Uvarint.RoundTrip.{one_byte, two_bytes}
use cpp_libp2p.ProtocolMuxer.Multiselect.{Message}
use cpp_libp2p.ProtocolMuxer.Multiselect.Parser.{
  Parser, consume_size, consume_data, consume_loop, consume_with, read_finished, is_underflow,
}
use cpp_libp2p.ProtocolMuxer.Multiselect.Parser.Bytes.{
  fresh, waiting, with_body, size_step, size_known, data_round, loop_stop, loop_size, loop_data,
  told,
}

-- One of the two bytes of the size is read.
abbrev pub half : ℕ → List Message → FixedBufferCollector → Parser
half n messages b = record (fresh messages b) { varint_reader = reading (n % 128) 1 }

half_step :
    (bytes : List ℕ) (n : ℕ) (p : Parser)
    → VarintPrefixReader.consume bytes p.varint_reader ≡ (State.underflow, [], reading n 1)
    → consume_size bytes p ≡ ([], record p { varint_reader = reading n 1 })
unfolding consume_size
half_step bytes n p e = ground arith

module _ (parse_nested : List ℕ → Parser → Parser) where
  loop_zero : (bytes : List ℕ) (p : Parser) → consume_loop parse_nested zero bytes p ≡ (bytes, p)
  unfolding consume_loop
  loop_zero bytes p = refl

  -- One byte of the size.
  one_round :
      (byte : ℕ) (p q : Parser)
      → p.state ≡ State.underflow
      → p.expected_msg_size ≡ 0
      → consume_size (byte ∷ []) p ≡ ([], q)
      → consume_with parse_nested (byte ∷ []) p ≡ (q.state, [], q)
  one_round byte p q s e k =
      told parse_nested (byte ∷ []) p ([], q) s
        (loop_size parse_nested 0 (byte ∷ []) p ([], q) (omega arith) s e k ∙ loop_zero [] q)

  module _ (n : ℕ) (messages : List Message) (b : FixedBufferCollector) where
    -- The size in one byte, and in two.
    pub short_size :
        0 < n
        → n < 128
        → consume_with parse_nested (n % 128 ∷ []) (fresh messages b)
          ≡ (State.underflow, [], waiting n messages b)
    short_size pos lt =
        let one = one_byte n lt in
        let got = length (from_number n) in
        let e : VarintPrefixReader.consume (n % 128 ∷ []) (fresh messages b).varint_reader
            ≡ (State.ready, [], done n got) =
          ap (λ l. VarintPrefixReader.consume l (fresh messages b).varint_reader)
            (sym one ∙ sym (append-nil (from_number n)))
          ∙ consume-from_number n [] (omega arith) in
        one_round (n % 128) (fresh messages b) (waiting n messages b) refl refl (
          size_step (n % 128 ∷ []) [] n got (fresh messages b) e (omega (arith, ap length one))
          ∙ ap (λ q. ([], q))
              (size_known n (record (fresh messages b) { varint_reader = done n got }) pos))

    pub first_of_two :
        n < 2 ^ 14
        → consume_with parse_nested ((n % 128 + 128) ∷ []) (fresh messages b)
          ≡ (State.underflow, [], half n messages b)
    first_of_two h =
        one_round (n % 128 + 128) (fresh messages b) (half n messages b) refl refl
          (half_step ((n % 128 + 128) ∷ []) (n % 128) (fresh messages b) (consume-first n h))

    pub second_of_two :
        128 ≤ n
        → n < 2 ^ 14
        → consume_with parse_nested (n / 128 % 128 ∷ []) (half n messages b)
          ≡ (State.underflow, [], waiting n messages b)
    second_of_two le h =
        let got : 2 ≡ length (from_number n) = sym (ap length (two_bytes n le h)) in
        one_round (n / 128 % 128) (half n messages b) (waiting n messages b) refl refl (
          size_step (n / 128 % 128 ∷ []) [] n 2 (half n messages b) (consume-second n h)
            (omega arith)
          ∙ ap (λ q. ([], q))
              (size_known n (record (half n messages b) { varint_reader = done n 2 }) (omega arith))
          ∙ ap (λ k. ([], record (waiting n messages b) { varint_reader = done n k })) got)

  -- The message behind its size.
  pub body_piece :
      (body : List ℕ) (messages : List Message) (b : FixedBufferCollector) (q : Parser)
      → 0 < length body
      → read_finished parse_nested body (with_body body [] messages b) ≡ q
      → is_underflow q.state ≡ false
      → consume_with parse_nested body (waiting (length body) messages b) ≡ (q.state, [], q)
  body_piece [] messages b q pos e stop = absurd (omega arith)
  body_piece (x ∷ xs) messages b q pos e stop =
      let p = waiting (length (x ∷ xs)) messages b in
      let whole : consume_data parse_nested (x ∷ xs) p ≡ ([], q) =
        ap (λ l. consume_data parse_nested l p) (sym (append-nil (x ∷ xs)))
        ∙ data_round parse_nested (x ∷ xs) [] messages b pos
        ∙ ap (λ y. ([], y)) e in
      told parse_nested (x ∷ xs) p ([], q) refl
        (loop_data parse_nested (length xs) (x ∷ xs) p ([], q) pos refl pos whole
          ∙ loop_stop parse_nested (length xs) [] q stop)
