-- ===== src/Base/Counts.antt =====
-- How often a number stands in a list.
use Prim.Native.Nat.{ℕ, ◌+◌, ◌≤◌}
use mathlib.Core.Bool.{false}
use mathlib.Core.Path.{◌≡◌}
use mathlib.Core.List.{List, [], ◌∷◌, ◌++◌}
use native.Mathlib.Omega.{arith}
use cpp_libp2p.Base.Tests.{◌==◌, if◌then◌else◌}

unfoldable pub one : ℕ → ℕ → ℕ
one c x = if c == x then 1 else 0

-- By equality of numbers.
abbrev pub count : ℕ → List ℕ → ℕ
count c [] = 0
count c (x ∷ xs) = one c x + count c xs

pub count-append : (c : ℕ) (xs ys : List ℕ) → count c (xs ++ ys) ≡ count c xs + count c ys
count-append c [] ys = omega arith
count-append c (x ∷ xs) ys = omega (arith, count-append c xs ys)

pub one_le : (q m : ℕ) → one q m ≤ 1
unfolding one
one_le q m = ground arith

pub one_other : (q m : ℕ) → (q == m) ≡ false → one q m ≡ 0
unfolding one
one_other q m h = ground arith

pub one_self : (p : ℕ) → one p p ≡ 1
unfolding one
one_self p = ground arith
