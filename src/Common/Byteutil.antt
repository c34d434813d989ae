-- ===== src/Common/Byteutil.antt =====
-- src/common/byteutil.cpp: numbers as bytes, in both orders. A byte array is a list of numbers
-- below 256, and an argument is cut to the width of its parameter, as the call does.
use cpp_libp2p.Base.{
  ℕ, ◌+◌, ◌*◌, ◌/◌, ◌%◌, ◌^◌, ◌<◌, bit_and, ◌≡◌, ap, List, [], ◌∷◌, ◌++◌, append_assoc, arith,
  low_byte,
}

-- push_back of `(n >> shift) & 0xFF`.
abbrev push_shifted : List ℕ → ℕ → ℕ → List ℕ
push_shifted bytes n shift = bytes ++ bit_and (n / 2 ^ shift) 0xff ∷ []

unfoldable pub put_uint8 : List ℕ → ℕ → List ℕ
put_uint8 bytes n = bytes ++ n % 2 ^ 8 ∷ []

unfoldable pub put_uint16_be : List ℕ → ℕ → List ℕ
unfolding put_uint8
put_uint16_be bytes n = let n = n % 2 ^ 16 in put_uint8 (push_shifted bytes n 8) n

unfoldable pub put_uint16_le : List ℕ → ℕ → List ℕ
unfolding put_uint8
put_uint16_le bytes n = let n = n % 2 ^ 16 in push_shifted (put_uint8 bytes n) n 8

unfoldable pub put_uint32_be : List ℕ → ℕ → List ℕ
unfolding put_uint16_be
put_uint32_be bytes n =
    let n = n % 2 ^ 32 in put_uint16_be (push_shifted (push_shifted bytes n 24) n 16) n

unfoldable pub put_uint32_le : List ℕ → ℕ → List ℕ
unfolding put_uint16_le
put_uint32_le bytes n =
    let n = n % 2 ^ 32 in push_shifted (push_shifted (put_uint16_le bytes n) n 16) n 24

unfoldable pub put_uint64_be : List ℕ → ℕ → List ℕ
unfolding put_uint32_be
put_uint64_be bytes n =
    let n = n % 2 ^ 64 in
    put_uint32_be
      (push_shifted (push_shifted (push_shifted (push_shifted bytes n 56) n 48) n 40) n 32) n

unfoldable pub put_uint64_le : List ℕ → ℕ → List ℕ
unfolding put_uint32_le
put_uint64_le bytes n =
    let n = n % 2 ^ 64 in
    push_shifted (push_shifted (push_shifted (push_shifted (put_uint32_le bytes n) n 32) n 40) n 48)
      n 56

-- The number that bytes stand for, the first one the highest; and the lowest.
abbrev pub from_be : ℕ → List ℕ → ℕ
from_be acc [] = acc
from_be acc (b ∷ bs) = from_be (acc * 256 + b) bs

abbrev pub from_le : List ℕ → ℕ
from_le [] = 0
from_le (b ∷ bs) = b + 256 * from_le bs

abbrev pub be32 : ℕ → List ℕ
be32 n = n / 2 ^ 24 % 256 ∷ n / 2 ^ 16 % 256 ∷ n / 2 ^ 8 % 256 ∷ n % 256 ∷ []

abbrev pub be16 : ℕ → List ℕ
be16 n = n / 2 ^ 8 % 256 ∷ n % 256 ∷ []

pub put_uint8_lem : (bytes : List ℕ) (n : ℕ) → n < 256 → put_uint8 bytes n ≡ bytes ++ n ∷ []
unfolding put_uint8
put_uint8_lem bytes n h = ap (λ (b : ℕ). bytes ++ b ∷ []) (omega arith)

pub put_uint16_be_lem : (bytes : List ℕ) (n : ℕ) → put_uint16_be bytes n ≡ bytes ++ be16 n
unfolding put_uint16_be
put_uint16_be_lem bytes n =
    let e1 : bit_and (n % 2 ^ 16 / 2 ^ 8) 0xff ≡ n / 2 ^ 8 % 256 =
      omega (arith, low_byte (n % 2 ^ 16 / 2 ^ 8)) in
    let e0 : n % 2 ^ 16 % 2 ^ 8 ≡ n % 256 = omega arith in rw (e1, e0) (append_assoc bytes _ _)

pub put_uint32_be_lem : (bytes : List ℕ) (n : ℕ) → put_uint32_be bytes n ≡ bytes ++ be32 n
unfolding put_uint32_be
put_uint32_be_lem bytes n =
    let e3 : bit_and (n % 2 ^ 32 / 2 ^ 24) 0xff ≡ n / 2 ^ 24 % 256 =
      omega (arith, low_byte (n % 2 ^ 32 / 2 ^ 24)) in
    let e2 : bit_and (n % 2 ^ 32 / 2 ^ 16) 0xff ≡ n / 2 ^ 16 % 256 =
      omega (arith, low_byte (n % 2 ^ 32 / 2 ^ 16)) in
    let e1 : bit_and (n % 2 ^ 32 % 2 ^ 16 / 2 ^ 8) 0xff ≡ n / 2 ^ 8 % 256 =
      omega (arith, low_byte (n % 2 ^ 32 % 2 ^ 16 / 2 ^ 8)) in
    let e0 : n % 2 ^ 32 % 2 ^ 16 % 2 ^ 8 ≡ n % 256 = omega arith in
    rw (e3, e2, e1, e0) (simp append_assoc)
