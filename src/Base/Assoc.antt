-- ===== src/Base/Assoc.antt =====
-- Maps from numbers, as association lists.
use Prim.Native.Nat.{ℕ, ◌+◌, ◌≤◌}
use mathlib.Core.Path.{◌≡◌, refl}
use mathlib.Core.Bool.{Bool, true, false}
use mathlib.Core.List.{List, [], ◌∷◌}
use mathlib.Core.Option.{Option, none, some}
use native.Mathlib.Omega.{arith}
use cpp_libp2p.Base.Tests.{◌==◌, if◌then◌else◌}
use cpp_libp2p.Base.Lists.{length}
use cpp_libp2p.Base.Counts.{one, count}

module _ {ℓ} {A : Type ℓ} where
  unfoldable pub find_key : ℕ → List (ℕ × A) → Option A
  find_key k [] = none
  find_key k ((j, a) ∷ m) = if k == j then some a else find_key k m

  unfoldable pub erase_key : ℕ → List (ℕ × A) → List (ℕ × A)
  erase_key k [] = []
  erase_key k ((j, a) ∷ m) = let rest = erase_key k m in if k == j then rest else (j, a) ∷ rest

  -- The value of the key is replaced in place, or the key is added.
  unfoldable pub put_key : ℕ → A → List (ℕ × A) → List (ℕ × A)
  put_key k b [] = (k, b) ∷ []
  put_key k b ((j, a) ∷ m) =
      let rest = put_key k b m in if k == j then (j, b) ∷ m else (j, a) ∷ rest

  abbrev pub keys : List (ℕ × A) → List ℕ
  keys [] = []
  keys ((j, a) ∷ m) = j ∷ keys m

  unfoldable pub contains_key : ℕ → List (ℕ × A) → Bool
  contains_key k m = elim (find_key k m) [ none ↦ false | some a ↦ true ]

  pub count-find_none : (k : ℕ) (m : List (ℕ × A)) → find_key k m ≡ none → count k (keys m) ≡ 0
  unfolding find_key one
  count-find_none k [] h = refl
  count-find_none k ((j, a) ∷ m) h = ground (arith, count-find_none k m)

  pub count-put_none :
      (i k : ℕ) (b : A) (m : List (ℕ × A))
      → find_key k m ≡ none
      → count i (keys (put_key k b m)) ≡ count i (keys m) + one i k
  unfolding find_key put_key
  count-put_none i k b [] h = omega arith
  count-put_none i k b ((j, a) ∷ m) h = ground (arith, count-put_none i k b m)

  pub keys-put_some :
      (k : ℕ) (b a : A) (m : List (ℕ × A)) → find_key k m ≡ some a → keys (put_key k b m) ≡ keys m
  unfolding find_key put_key
  keys-put_some k b a [] h = cc
  keys-put_some k b a ((j, c) ∷ m) h = ground (arith, keys-put_some k b a m)

  pub count-erase : (i k : ℕ) (m : List (ℕ × A)) → count i (keys (erase_key k m)) ≤ count i (keys m)
  unfolding erase_key
  count-erase i k [] = omega arith
  count-erase i k ((j, a) ∷ m) = ground (arith, count-erase i k m)

  pub count-erased : (k : ℕ) (m : List (ℕ × A)) → count k (keys (erase_key k m)) ≡ 0
  unfolding erase_key one
  count-erased k [] = refl
  count-erased k ((j, a) ∷ m) = ground (arith, count-erased k m)

  pub length-put_none :
      (k : ℕ) (b : A) (m : List (ℕ × A))
      → find_key k m ≡ none
      → length (put_key k b m) ≡ length m + 1
  unfolding find_key put_key
  length-put_none k b [] h = omega arith
  length-put_none k b ((j, a) ∷ m) h = ground (arith, length-put_none k b m)

  pub length-put_le : (k : ℕ) (b : A) (m : List (ℕ × A)) → length (put_key k b m) ≤ length m + 1
  unfolding put_key
  length-put_le k b [] = omega arith
  length-put_le k b ((j, a) ∷ m) = ground (arith, length-put_le k b m)

  pub find-contains_false :
      (k : ℕ) (m : List (ℕ × A)) → contains_key k m ≡ false → find_key k m ≡ none
  unfolding contains_key find_key
  find-contains_false k [] h = refl
  find-contains_false k ((j, a) ∷ m) h = ground (arith, find-contains_false k m)

  pub count-find_some :
      (k : ℕ) (a : A) (m : List (ℕ × A)) → find_key k m ≡ some a → 1 ≤ count k (keys m)
  unfolding find_key one
  count-find_some k a [] h = absurd (none_some h)
    where
      none_some : none ≡ some a → ⊥
      none_some e = cc
  count-find_some k a ((j, b) ∷ m) h = ground (arith, count-find_some k a m)

  pub count-contains_key :
      (k : ℕ) (m : List (ℕ × A)) → contains_key k m ≡ true → 1 ≤ count k (keys m)
  unfolding contains_key find_key one
  count-contains_key k [] h = absurd (false_true h)
    where
      false_true : false ≡ true → ⊥
      false_true e = cc
  count-contains_key k ((j, b) ∷ m) h = ground (arith, count-contains_key k m)

  pub find-put : (k : ℕ) (b : A) (m : List (ℕ × A)) → find_key k (put_key k b m) ≡ some b
  unfolding find_key put_key
  find-put k b [] = ground arith
  find-put k b ((j, a) ∷ m) = ground (arith, find-put k b m)

  pub find-put_other :
      (q k : ℕ) (b : A) (m : List (ℕ × A))
      → (q == k) ≡ false
      → find_key q (put_key k b m) ≡ find_key q m
  unfolding find_key put_key
  find-put_other q k b [] h = ground arith
  find-put_other q k b ((j, a) ∷ m) h = ground (arith, find-put_other q k b m h)
