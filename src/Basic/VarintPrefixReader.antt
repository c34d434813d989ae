-- ===== src/Basic/VarintPrefixReader.antt =====
-- include/libp2p/basic/varint_prefix_reader.hpp and src/basic/varint_prefix_reader.cpp: the number in
-- front of a message, read from the bytes as they come. The results are the state that is told,
-- what is left of the buffer, and the reader.
pub mod Reading
use cpp_libp2p.Base.{
  ℕ, suc, ◌+◌, ◌-◌, ◌*◌, ◌%◌, ◌^◌, bit_and, Bool, true, false, not, ◌&&◌, ◌||◌, List, [], ◌∷◌, ltb,
  ◌==◌, if◌then◌else◌,
}

-- VarintPrefixReader::State, which Parser::State repeats.
pub data State : Type 0 where
  underflow : State
  ready : State
  overflow : State
  error : State

pub record VarintPrefixReader : Type 0 where
  pub value : ℕ
  pub state : State
  pub got_bytes : ℕ

abbrev pub max_bytes : ℕ
max_bytes = 10

abbrev pub new_varint_reader : VarintPrefixReader
new_varint_reader = record { value = 0; state = underflow; got_bytes = 0 }

-- The part of `consume` for a reader that needs more bytes; `got` counts this byte.
unfoldable pub take_byte : ℕ → ℕ → VarintPrefixReader → VarintPrefixReader
take_byte byte got r =
    let next_byte_needed = not (bit_and byte 0x80 == 0) in
    let tmp = bit_and byte 0x7f in
    if got == max_bytes && (ltb 1 tmp || next_byte_needed)
    then record r { state = overflow; got_bytes = got }
    else record {
      value = (r.value + tmp * 2 ^ (7 * (got - 1)) % 2 ^ 64) % 2 ^ 64;
      state = if next_byte_needed then underflow else ready;
      got_bytes = got;
    }

-- `consume(uint8_t)`.
unfoldable pub consume_byte : ℕ → VarintPrefixReader → State × VarintPrefixReader
consume_byte byte r = elim r.state [
  | underflow ↦ let r1 = take_byte byte (suc r.got_bytes) r in (r1.state, r1)
  | ready ↦ (error, r)
  | overflow ↦ (overflow, r)
  | error ↦ (error, r)
]

-- The loop of `consume(BytesIn &)`: the state, what the loop has not seen, the reader.
unfoldable pub consume_bytes :
    List ℕ → State → VarintPrefixReader → State × List ℕ × VarintPrefixReader
consume_bytes [] s r = (s, [], r)
consume_bytes (byte ∷ bytes) s r =
    let (s1, r1) = consume_byte byte r in
    let more = consume_bytes bytes s1 r1 in
    elim s1 [
      | underflow ↦ more
      | ready ↦ (ready, bytes, r1)
      | overflow ↦ (overflow, bytes, r1)
      | error ↦ (error, bytes, r1)
    ]

-- The buffer is cut only in the states that ask for it.
unfoldable pub consume : List ℕ → VarintPrefixReader → State × List ℕ × VarintPrefixReader
consume buffer r =
    let (s, left, r1) = consume_bytes buffer r.state r in
    elim s [
      | underflow ↦ (underflow, left, r1)
      | ready ↦ (ready, left, r1)
      | overflow ↦ (overflow, buffer, r1)
      | error ↦ (error, buffer, r1)
    ]
