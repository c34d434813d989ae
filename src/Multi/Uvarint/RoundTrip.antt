-- ===== src/Multi/Uvarint/RoundTrip.antt =====
-- The varint that `UVarint(number)` builds, and back.
use cpp_libp2p.Base.{
  ℕ, zero, suc, ◌+◌, ◌/◌, ◌%◌, ◌^◌, ◌≤◌, ◌<◌, ◌≡◌, ◌∙◌, List, [], ◌∷◌, ◌++◌, some, arith, low_seven,
  set_top, length, zero_cases, lt_or_le, ap, inl, inr,
}
use native.Mathlib.Nat.{pow-suc}
use cpp_libp2p.Multi.Uvarint.{encode_loop, from_number, create, to_uint64}
use cpp_libp2p.Multi.Uvarint.Accepts.{value, IsVarint, create_complete}

pub encode_last : (fuel n : ℕ) → n / 128 ≡ 0 → encode_loop (suc fuel) n ≡ n % 128 ∷ []
unfolding encode_loop
encode_last fuel n z = ground (arith, low_seven (n % 256))

pub encode_more :
    (fuel n : ℕ)
    → 0 < n / 128
    → encode_loop (suc fuel) n ≡ (n % 128 + 128) ∷ encode_loop fuel (n / 128)
unfolding encode_loop
encode_more fuel n pos = ground (arith, low_seven (n % 256), set_top (n % 128))

cons-IsVarint : (g : ℕ) (v : List ℕ) → g < 128 → IsVarint v → IsVarint ((g + 128) ∷ v)
cons-IsVarint g [] lt h = absurd h
cons-IsVarint g (b ∷ bs) lt h = (omega arith, omega arith, h)

pub record Encodes (fuel n : ℕ) (v : List ℕ) : Type 0 where
  pub varint : IsVarint v
  pub number : value v ≡ n
  pub short : length v ≤ fuel

Encodes-last : (fuel n : ℕ) → n / 128 ≡ 0 → Encodes (suc fuel) n (encode_loop (suc fuel) n)
Encodes-last fuel n z =
    rw (encode_last fuel n z)
      (record { varint = omega arith; number = omega arith; short = omega arith })

pub encode_loop_lem :
    (fuel n : ℕ) → n < 128 ^ suc fuel → Encodes (suc fuel) n (encode_loop (suc fuel) n)
encode_loop_lem zero n h = Encodes-last zero n (omega arith)
encode_loop_lem (suc fuel) n h = elim (zero_cases (n / 128)) [
  | inl z ↦ Encodes-last (suc fuel) n z
  | inr pos ↦
      let r : Encodes (suc fuel) (n / 128) (encode_loop (suc fuel) (n / 128)) =
        encode_loop_lem fuel (n / 128) (omega (arith, pow-suc 128 (suc fuel))) in
      rw (encode_more (suc fuel) n pos) (record {
        varint = cons-IsVarint (n % 128) _ (omega arith) r.varint;
        number = omega (arith, r.number);
        short = omega (arith, r.short);
      })
]

-- A 64-bit number is written as a varint of at most ten bytes, `create` reads exactly these bytes
-- back whatever follows them, and `toUInt64` gives the number: the ten rounds are enough.
pub create-from_number :
    (n : ℕ) (rest : List ℕ)
    → n < 2 ^ 64
    → (create (from_number n ++ rest) ≡ some (from_number n))
      × (to_uint64 (from_number n) ≡ n)
      × (length (from_number n) ≤ 10)
unfolding from_number
create-from_number n rest h =
    let r : Encodes 10 n (encode_loop 10 n) = encode_loop_lem 9 n (omega arith) in
    let c : (create (encode_loop 10 n ++ rest) ≡ some (encode_loop 10 n))
        × (to_uint64 (encode_loop 10 n) ≡ value (encode_loop 10 n)) =
      create_complete (encode_loop 10 n) rest r.varint (omega (arith, r.number)) r.short in
    (c.0, c.1 ∙ r.number, r.short)

pub from_number-Encodes : (n : ℕ) → n < 2 ^ 64 → Encodes 10 n (from_number n)
unfolding from_number
from_number-Encodes n h = encode_loop_lem 9 n (omega arith)

pub one_byte : (n : ℕ) → n < 128 → from_number n ≡ n % 128 ∷ []
unfolding from_number
one_byte n h = encode_last 9 n (omega arith)

pub two_bytes :
    (n : ℕ) → 128 ≤ n → n < 2 ^ 14 → from_number n ≡ (n % 128 + 128) ∷ n / 128 % 128 ∷ []
unfolding from_number
two_bytes n h lt =
    encode_more 9 n (omega arith)
    ∙ ap (λ l. (n % 128 + 128) ∷ l) (encode_last 8 (n / 128) (omega arith))

-- A number of fourteen bits has one byte or two.
pub short_number :
    (n : ℕ) → n < 2 ^ 14 → (1 ≤ length (from_number n)) × (length (from_number n) ≤ 2)
short_number n h = elim (lt_or_le n 128) [
  | inl lt ↦ rw (one_byte n lt) (omega arith, omega arith)
  | inr le ↦ rw (two_bytes n le h) (omega arith, omega arith)
]
