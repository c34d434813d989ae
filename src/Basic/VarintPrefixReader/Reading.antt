-- ===== src/Basic/VarintPrefixReader/Reading.antt =====
-- What VarintPrefixReader reads from a varint, and from the beginning of one.
use cpp_libp2p.Base.{
  ℕ, suc, ◌+◌, ◌-◌, ◌*◌, ◌%◌, ◌/◌, ◌^◌, ◌≤◌, ◌<◌, ◌≡◌, refl, sym, ap, subst, ◌∙◌, List, [], ◌∷◌,
  ◌++◌, arith, low_seven, top_bit, length, false, ◌==◌, ltb, bit_and, ◌&&◌, ◌||◌, ◌⊎◌, inl, inr,
  lt_or_le,
}
use native.Mathlib.Nat.{mod-eq_of_lt}
use native.Mathlib.Numerals.{towards_suc}
use cpp_libp2p.Multi.Uvarint.Accepts.{value, IsVarint}
use cpp_libp2p.Multi.Uvarint.{from_number}
use cpp_libp2p.Multi.Uvarint.RoundTrip.{from_number-Encodes}
use cpp_libp2p.Basic.VarintPrefixReader.{
  VarintPrefixReader, State, take_byte, consume_byte, consume_bytes, consume, new_varint_reader,
}

abbrev pub reading : ℕ → ℕ → VarintPrefixReader
reading value got = record { value = value; state = State.underflow; got_bytes = got }

take_last :
    (b acc g p : ℕ)
    → 2 ^ (7 * g) ≡ p
    → b < 128
    → (g < 9) ⊎ (b < 2)
    → acc + b * p < 2 ^ 64
    → take_byte b (suc g) (reading acc g)
      ≡ record { value = acc + b * p; state = State.ready; got_bytes = suc g }
unfolding take_byte
take_last b acc g p e last near fit =
    let i : 7 * (suc g - 1) ≡ 7 * g = omega arith in
    let tmp : bit_and b 127 ≡ b = omega (arith, low_seven b (omega arith)) in
    let top : bit_and b 128 ≡ 0 = omega (arith, top_bit b (omega arith)) in
    let fits : ((suc g == 10) && (ltb 1 b || false)) ≡ false = ground arith in
    let m1 : b * p % 2 ^ 64 ≡ b * p = mod-eq_of_lt (omega arith) in
    let m2 : (acc + b * p) % 2 ^ 64 ≡ acc + b * p = mod-eq_of_lt fit in
    rw (i, tmp, top, fits, e, m1, m2) refl

take_more :
    (b acc g p : ℕ)
    → 2 ^ (7 * g) ≡ p
    → 128 ≤ b
    → b < 256
    → g < 9
    → acc + b % 128 * p < 2 ^ 64
    → take_byte b (suc g) (reading acc g) ≡ reading (acc + b % 128 * p) (suc g)
unfolding take_byte
take_more b acc g p e more byte near fit =
    let i : 7 * (suc g - 1) ≡ 7 * g = omega arith in
    let tmp : bit_and b 127 ≡ b % 128 = low_seven b byte in
    let top : bit_and b 128 ≡ 128 = omega (arith, top_bit b byte) in
    let not_max : (suc g == 10) ≡ false = ground arith in
    let m1 : b % 128 * p % 2 ^ 64 ≡ b % 128 * p = mod-eq_of_lt (omega arith) in
    let m2 : (acc + b % 128 * p) % 2 ^ 64 ≡ acc + b % 128 * p = mod-eq_of_lt fit in
    rw (i, tmp, top, not_max, e, m1, m2) refl

next_power : (g p : ℕ) → 2 ^ (7 * g) ≡ p → 2 ^ (7 * suc g) ≡ 128 * p
next_power g p e =
    let i : 7 * suc g ≡ 7 * g + 7 = omega arith in
    rw i (
      let k : 2 ^ (7 * g + 7) ≡ 2 ^ (7 * g) * 128 = simp towards_suc (omega arith) in
      omega (arith, k, e))

consume_last :
    (b : ℕ) (bytes : List ℕ) (acc g : ℕ) (r : VarintPrefixReader)
    → take_byte b (suc g) (reading acc g) ≡ r
    → r.state ≡ State.ready
    → consume_bytes (b ∷ bytes) State.underflow (reading acc g) ≡ (State.ready, bytes, r)
unfolding consume_bytes consume_byte
consume_last b bytes acc g r e s = ground arith

consume_more :
    (b : ℕ) (bytes : List ℕ) (acc g acc' : ℕ)
    → take_byte b (suc g) (reading acc g) ≡ reading acc' (suc g)
    → consume_bytes (b ∷ bytes) State.underflow (reading acc g)
      ≡ consume_bytes bytes State.underflow (reading acc' (suc g))
unfolding consume_bytes consume_byte
consume_more b bytes acc g acc' e = ground arith

abbrev pub done : ℕ → ℕ → VarintPrefixReader
done value got = record { value = value; state = State.ready; got_bytes = got }

distribute : (x w p : ℕ) → (x + 128 * w) * p ≡ x * p + w * (128 * p)
distribute x w p = grind arith

last_fits : (b acc g p : ℕ) → 2 ^ (7 * g) ≡ p → g ≤ 9 → acc + b * p < 2 ^ 64 → (g < 9) ⊎ (b < 2)
last_fits b acc g p e near fit = elim (lt_or_le g 9) [
  | inl lt ↦ inl lt
  | inr le ↦
      let nine : 9 ≡ g = omega arith in
      let p9 : 2 ^ 63 ≡ p = ap (λ x. 2 ^ (7 * x)) nine ∙ e in
      let fit9 : acc + b * 2 ^ 63 < 2 ^ 64 = subst (λ q. acc + b * q < 2 ^ 64) (sym p9) fit in
      inr (omega (arith, fit9))
]

consume_bytes_lem :
    (v rest : List ℕ) (acc g p : ℕ)
    → IsVarint v
    → 2 ^ (7 * g) ≡ p
    → g + length v ≤ 10
    → acc + value v * p < 2 ^ 64
    → consume_bytes (v ++ rest) State.underflow (reading acc g)
      ≡ (State.ready, rest, done (acc + value v * p) (g + length v))
consume_bytes_lem [] rest acc g p h e short fit = absurd h
consume_bytes_lem (b ∷ []) rest acc g p h e short fit =
    let low : b % 128 + 128 * 0 ≡ b = omega arith in
    let same : acc + (b % 128 + 128 * 0) * p ≡ acc + b * p = ap (λ x. acc + x * p) low in
    let size : g + 1 ≡ suc g = omega arith in
    let fit' : acc + b * p < 2 ^ 64 = omega (arith, fit, same) in
    consume_last b rest acc g (done (acc + b * p) (suc g))
      (take_last b acc g p e h (last_fits b acc g p e (omega arith) fit') fit') refl
    ∙ ap (λ x. (State.ready, rest, done x (suc g))) (sym same)
    ∙ ap (λ n. (State.ready, rest, done (acc + (b % 128 + 128 * 0) * p) n)) (sym size)
consume_bytes_lem (b ∷ c ∷ v) rest acc g p h e short fit =
    let d = distribute (b % 128) (value (c ∷ v)) p in
    let x = acc + b % 128 * p in
    let same : x + value (c ∷ v) * (128 * p) ≡ acc + value (b ∷ c ∷ v) * p = omega (arith, d) in
    let size : suc g + length (c ∷ v) ≡ g + length (b ∷ c ∷ v) = omega arith in
    consume_more b (c ∷ v ++ rest) acc g x
      (take_more b acc g p e h.0 h.1 (omega arith) (omega (arith, fit, d)))
    ∙ consume_bytes_lem (c ∷ v) rest x (suc g) (128 * p) h.2 (next_power g p e) (omega arith)
        (omega (arith, fit, d))
    ∙ ap (λ y. (State.ready, rest, done y (suc g + length (c ∷ v)))) same
    ∙ ap (λ n. (State.ready, rest, done (acc + value (b ∷ c ∷ v) * p) n)) size

consume_ready :
    (buffer rest : List ℕ) (r : VarintPrefixReader)
    → consume_bytes buffer State.underflow new_varint_reader ≡ (State.ready, rest, r)
    → consume buffer new_varint_reader ≡ (State.ready, rest, r)
unfolding consume
consume_ready buffer rest r e = ground arith

-- The number in front of a message is read back, whatever follows it, and the bytes behind it are
-- left: a reader that is new reads what UVarint writes, for every number of 64 bits.
pub consume-from_number :
    (n : ℕ) (rest : List ℕ)
    → n < 2 ^ 64
    → consume (from_number n ++ rest) new_varint_reader
      ≡ (State.ready, rest, done n (length (from_number n)))
consume-from_number n rest h =
    let r = from_number-Encodes n h in
    let e =
      consume_bytes_lem (from_number n) rest 0 0 1 r.varint refl (omega (arith, r.short))
        (omega (arith, r.number)) in
    let same : 0 + value (from_number n) * 1 ≡ n = omega (arith, r.number) in
    let size : 0 + length (from_number n) ≡ length (from_number n) = omega arith in
    consume_ready (from_number n ++ rest) rest (done n (length (from_number n))) (
      e
      ∙ ap (λ x. (State.ready, rest, done x (0 + length (from_number n)))) same
      ∙ ap (λ k. (State.ready, rest, done n k)) size)

consume_underflow :
    (bytes : List ℕ) (r r' : VarintPrefixReader)
    → r.state ≡ State.underflow
    → consume_bytes bytes State.underflow r ≡ (State.underflow, [], r')
    → consume bytes r ≡ (State.underflow, [], r')
unfolding consume
consume_underflow bytes r r' s e = ground arith

consume_last_ready :
    (bytes : List ℕ) (r r' : VarintPrefixReader)
    → r.state ≡ State.underflow
    → consume_bytes bytes State.underflow r ≡ (State.ready, [], r')
    → consume bytes r ≡ (State.ready, [], r')
unfolding consume
consume_last_ready bytes r r' s e = ground arith

no_bytes : (r : VarintPrefixReader) → consume_bytes [] State.underflow r ≡ (State.underflow, [], r)
unfolding consume_bytes
no_bytes r = refl

-- The two bytes of a number one after the other.
pub consume-first :
    (n : ℕ)
    → n < 2 ^ 14
    → consume ((n % 128 + 128) ∷ []) new_varint_reader ≡ (State.underflow, [], reading (n % 128) 1)
consume-first n h =
    let b = n % 128 + 128 in
    let low : b % 128 ≡ n % 128 = omega arith in
    let sum : 0 + b % 128 * 1 ≡ n % 128 = omega (arith, low) in
    consume_underflow (b ∷ []) new_varint_reader (reading (n % 128) 1) refl (
      consume_more b [] 0 0 (0 + b % 128 * 1)
        (take_more b 0 0 1 refl (omega arith) (omega arith) (omega arith) (omega (arith, low)))
      ∙ no_bytes (reading (0 + b % 128 * 1) 1)
      ∙ ap (λ x. (State.underflow, [], reading x 1)) sum)

pub consume-second :
    (n : ℕ)
    → n < 2 ^ 14
    → consume (n / 128 % 128 ∷ []) (reading (n % 128) 1) ≡ (State.ready, [], done n 2)
consume-second n h =
    let b = n / 128 % 128 in
    let sum : n % 128 + b * 128 ≡ n = omega arith in
    consume_last_ready (b ∷ []) (reading (n % 128) 1) (done n 2) refl (
      consume_last b [] (n % 128) 1 (done (n % 128 + b * 128) 2)
        (take_last b (n % 128) 1 128 refl (omega arith) (inl (omega arith)) (omega arith)) refl
      ∙ ap (λ x. (State.ready, [], done x 2)) sum)
