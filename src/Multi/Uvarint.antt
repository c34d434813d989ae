-- ===== src/Multi/Uvarint.antt =====
-- include/libp2p/multi/uvarint.hpp and src/multi/uvarint.cpp: unsigned LEB128 numbers. The class
-- holds its bytes, so a UVarint is a list of bytes.
pub mod Accepts
pub mod RoundTrip
use cpp_libp2p.Base.{
  ℕ, zero, suc, ◌+◌, ◌*◌, ◌/◌, ◌%◌, ◌^◌, bit_and, bit_or, Bool, true, false, not, ◌||◌, Option,
  none, some, List, [], ◌∷◌, leb, ltb, ◌==◌, if◌then◌else◌, take,
}

-- The loop of `UVarint(uint64_t number)`. Ten rounds are enough for 64 bits.
unfoldable pub encode_loop : ℕ → ℕ → List ℕ
encode_loop zero number = []
encode_loop (suc fuel) number =
    let byte = bit_and (number % 2 ^ 8) 0x7f in
    let number' = number / 2 ^ 7 in
    let rest = encode_loop fuel number' in
    if number' == 0 then byte ∷ [] else bit_or byte 0x80 ∷ rest

unfoldable pub from_number : ℕ → List ℕ
unfolding encode_loop
from_number number = encode_loop 10 number

-- The loop of `calculateSize`, from the bytes read and the shift; 0 for what is refused. In C++
-- `slice << shift >> shift` is computed only for a shift below 64.
unfoldable pub size_loop : ℕ → ℕ → List ℕ → ℕ
size_loop size shift [] = 0
size_loop size shift (byte ∷ bytes) =
    let slice = bit_and byte 0x7f in
    let rest = size_loop (suc size) (shift + 7) bytes in
    if leb 64 shift || not (slice * 2 ^ shift % 2 ^ 64 / 2 ^ shift == slice)
    then 0
    else if bit_and byte 0x80 == 0
    then suc size
    else rest

unfoldable pub calculate_size : List ℕ → ℕ
unfolding size_loop
calculate_size varint_bytes = size_loop 0 0 varint_bytes

unfoldable pub create : List ℕ → Option (List ℕ)
unfolding calculate_size
create varint_bytes =
    let size = calculate_size varint_bytes in
    if ltb 0 size then some (take size varint_bytes) else none

-- The loop of `toUInt64`, from the result and the index so far.
unfoldable pub value_loop : ℕ → ℕ → List ℕ → ℕ
value_loop res index [] = res
value_loop res index (byte ∷ bytes) =
    value_loop ((res + bit_and byte 0x7f * 2 ^ index % 2 ^ 64) % 2 ^ 64) (index + 7) bytes

unfoldable pub to_uint64 : List ℕ → ℕ
unfolding value_loop
to_uint64 bytes = value_loop 0 0 bytes

-- `operator<` compares the numbers.
unfoldable pub less : List ℕ → List ℕ → Bool
unfolding to_uint64
less a b = ltb (to_uint64 a) (to_uint64 b)
