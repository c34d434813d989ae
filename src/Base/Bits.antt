-- ===== src/Base/Bits.antt =====
-- Masks as arithmetic: on every number for the mask of a byte, by table for the masks of one byte.
use Prim.Native.Nat.{
  ℕ, zero, suc, ◌+◌, ◌*◌, ◌/◌, ◌%◌, ◌≤◌, ◌<◌, min, bit_and, bit_or, digits, bit_and-bitwise,
}
use mathlib.Core.Path.{◌≡◌, refl}
use mathlib.Core.Bool.{Bool, true, ◌&&◌}
use native.Mathlib.Omega.{arith}
use cpp_libp2p.Base.Tests.{◌==◌, ==_iff}

-- A claim about every number below `n`, checked by evaluation.
holds_below : ℕ → (ℕ → Bool) → Bool
holds_below zero p = true
holds_below (suc n) p = p n && holds_below n p

holds_below_sound : (n : ℕ) (p : ℕ → Bool) (x : ℕ) → holds_below n p ≡ true → x < n → p x ≡ true
unfolding holds_below
holds_below_sound zero p x h lt = absurd (omega arith)
holds_below_sound (suc n) p x h lt = ground (arith, holds_below_sound n p x)

low_seven_table : holds_below 256 (λ b. bit_and b 0x7f == b % 128) ≡ true
unfolding holds_below
low_seven_table = refl

pub low_seven : (b : ℕ) → b < 256 → bit_and b 0x7f ≡ b % 128
low_seven b h = (==_iff _ _).0 (holds_below_sound 256 _ b low_seven_table h)

top_bit_table : holds_below 256 (λ b. bit_and b 0x80 == b / 128 * 128) ≡ true
unfolding holds_below
top_bit_table = refl

pub top_bit : (b : ℕ) → b < 256 → bit_and b 0x80 ≡ b / 128 * 128
top_bit b h = (==_iff _ _).0 (holds_below_sound 256 _ b top_bit_table h)

set_top_table : holds_below 128 (λ b. bit_or b 0x80 == b + 128) ≡ true
unfolding holds_below
set_top_table = refl

pub set_top : (b : ℕ) → b < 128 → bit_or b 0x80 ≡ b + 128
set_top b h = (==_iff _ _).0 (holds_below_sound 128 _ b set_top_table h)

-- The digits that `&` stands for, with more rounds than it needs.
abbrev and_rounds : ℕ → ℕ → ℕ → ℕ
and_rounds rounds a b = digits (λ _. zero) min rounds a b

and_rounds_enough : (m n a b : ℕ) → a ≤ m → a ≤ n → and_rounds m a b ≡ and_rounds n a b
and_rounds_enough zero zero a b hm hn = refl
and_rounds_enough zero (suc n) zero b hm hn = refl
and_rounds_enough zero (suc n) (suc a) b hm hn = absurd (omega arith)
and_rounds_enough (suc m) zero zero b hm hn = refl
and_rounds_enough (suc m) zero (suc a) b hm hn = absurd (omega arith)
and_rounds_enough (suc m) (suc n) zero b hm hn = refl
and_rounds_enough (suc m) (suc n) (suc a) b hm hn =
    omega (arith, and_rounds_enough m n (suc a / 2) (b / 2) (omega arith) (omega arith))

and_of_zero : (b : ℕ) → bit_and 0 b ≡ 0
and_of_zero b = bit_and-bitwise 0 b

-- The lowest bit of `&`, and the others.
pub bit_and_halves : (a b : ℕ) → bit_and a b ≡ bit_and (a / 2) (b / 2) * 2 + min (a % 2) (b % 2)
bit_and_halves zero b = omega (arith, and_of_zero b, and_of_zero (b / 2))
bit_and_halves (suc a) b = omega (
  arith,
  bit_and-bitwise (suc a) b,
  bit_and-bitwise (suc a / 2) (b / 2),
  and_rounds_enough a (suc a / 2) (suc a / 2) (b / 2) (omega arith) (omega arith),
)

bit_and_zero_below : (n a : ℕ) → a ≤ n → bit_and a 0 ≡ 0
bit_and_zero_below n zero h = refl
bit_and_zero_below zero (suc a) h = absurd (omega arith)
bit_and_zero_below (suc n) (suc a) h =
    omega (arith, bit_and_halves (suc a) 0, bit_and_zero_below n (suc a / 2) (omega arith))

bit_and_zero : (a : ℕ) → bit_and a 0 ≡ 0
bit_and_zero a = bit_and_zero_below a a (omega arith)

pub bit_and_one : (a : ℕ) → bit_and a 1 ≡ a % 2
bit_and_one a = omega (arith, bit_and_halves a 1, bit_and_zero (a / 2))

bit_and_three : (a : ℕ) → bit_and a 3 ≡ a % 4
bit_and_three a = omega (arith, bit_and_halves a 3, bit_and_one (a / 2))

bit_and_fifteen : (a : ℕ) → bit_and a 15 ≡ a % 16
bit_and_fifteen a =
    omega (arith, bit_and_halves a 15, bit_and_halves (a / 2) 7, bit_and_three (a / 2 / 2))

-- `x & 0xFF`, whatever the width of `x`.
pub low_byte : (a : ℕ) → bit_and a 0xff ≡ a % 256
low_byte a = omega (
  arith,
  bit_and_halves a 255,
  bit_and_halves (a / 2) 127,
  bit_and_halves (a / 2 / 2) 63,
  bit_and_halves (a / 2 / 2 / 2) 31,
  bit_and_fifteen (a / 2 / 2 / 2 / 2),
)

-- `x & 0x7F`, whatever the width of `x`.
pub low_seven_bits : (a : ℕ) → bit_and a 0x7f ≡ a % 128
low_seven_bits a = omega (
  arith,
  bit_and_halves a 127,
  bit_and_halves (a / 2) 63,
  bit_and_halves (a / 2 / 2) 31,
  bit_and_fifteen (a / 2 / 2 / 2),
)
