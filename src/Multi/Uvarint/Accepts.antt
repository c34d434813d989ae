-- ===== src/Multi/Uvarint/Accepts.antt =====
-- What `create` accepts: the value without wrap-around, and the size.
use cpp_libp2p.Base.{
  ℕ, zero, suc, ◌+◌, ◌*◌, ◌/◌, ◌%◌, ◌^◌, ◌≤◌, ◌<◌, ◌≡◌, refl, ap, ◌∙◌, List, [], ◌∷◌, ◌++◌, arith,
  All, low_seven, top_bit, lt_or_le, zero_cases, some_inj, sym, take-append_exact, inl, inr, length,
  take, some,
}
use native.Mathlib.Numerals.{towards_suc}
use native.Mathlib.Nat.{
  mod-lt, mod-eq_of_lt, mul-div_cancel, mul_assoc, div-lt_iff_lt-mul, one-le-pow,
}
use cpp_libp2p.Multi.Uvarint.{size_loop, create, value_loop, to_uint64}

-- The number that the bytes stand for, with no limit on its size.
abbrev pub value : List ℕ → ℕ
value [] = 0
value (b ∷ bs) = b % 128 + 128 * value bs

-- The top bit is set on every byte but the last.
abbrev pub IsVarint : List ℕ → Type 0
IsVarint [] = ⊥
IsVarint (b ∷ []) = b < 128
IsVarint (b ∷ c ∷ cs) = (128 ≤ b) × (b < 256) × IsVarint (c ∷ cs)

abbrev pub IsByte : ℕ → Type 0
IsByte b = b < 256

-- What is left of the 64 bits when `k` more groups of seven may follow.
abbrev pub room : ℕ → ℕ
room zero = 2
room (suc k) = 128 * room k

fits : (x p m r : ℕ) → 0 < p → p * r ≡ m → x < r → x * p % m / p ≡ x
fits x p m r hp e lt = let h : x * p < m = grind arith in rw (mod-eq_of_lt h) (mul-div_cancel x hp)

fits_only : (x p m r : ℕ) → 0 < p → 0 < m → p * r ≡ m → r ≤ x → x * p % m / p < x
fits_only x p m r hp hm e le =
    let h : m ≤ x * p = grind arith in
    (div-lt_iff_lt-mul hp).1 (omega (arith, mod-lt (x * p) {m = m} hm))

shift_step : (shift : ℕ) → 2 ^ (shift + 7) ≡ 2 ^ shift * 128
shift_step shift = simp towards_suc (omega arith)

-- One round of `size_loop`, with room for `r` at the shift.
module _ (size shift r b : ℕ) (bs : List ℕ) (near : shift < 64) (e : 2 ^ shift * r ≡ 2 ^ 64)
    (byte : b < 256) where
  size_last : b < 128 → b < r → size_loop size shift (b ∷ bs) ≡ suc size
  unfolding size_loop
  size_last last lt = ground (
    arith,
    low_seven b,
    top_bit b,
    fits (b % 128) (2 ^ shift) (2 ^ 64) r (one-le-pow shift 2 (omega arith)),
  )

  size_more :
      128 ≤ b → b % 128 < r → size_loop size shift (b ∷ bs) ≡ size_loop (suc size) (shift + 7) bs
  unfolding size_loop
  size_more more lt = ground (
    arith,
    low_seven b,
    top_bit b,
    fits (b % 128) (2 ^ shift) (2 ^ 64) r (one-le-pow shift 2 (omega arith)),
  )

  size_too_large : r ≤ b % 128 → size_loop size shift (b ∷ bs) ≡ 0
  unfolding size_loop
  size_too_large le = ground (
    arith,
    low_seven b,
    fits_only (b % 128) (2 ^ shift) (2 ^ 64) r (one-le-pow shift 2 (omega arith)) (omega arith),
  )

size_far : (size shift : ℕ) (bs : List ℕ) → 64 ≤ shift → size_loop size shift bs ≡ 0
unfolding size_loop
size_far size shift [] h = refl
size_far size shift (b ∷ bs) h = ground arith

IsVarint-cons : (b : ℕ) (v : List ℕ) → 128 ≤ b → b < 256 → IsVarint v → IsVarint (b ∷ v)
IsVarint-cons b [] more byte h = absurd h
IsVarint-cons b (c ∷ cs) more byte h = (more, byte, h)

-- The accepted prefix `v` of the input: a varint of at most `k` + 1 bytes whose value fits the room.
pub record Accepted (k size n : ℕ) (bs : List ℕ) : Type 0 where
  pub v : List ℕ
  pub rest : List ℕ
  pub split : bs ≡ v ++ rest
  pub varint : IsVarint v
  pub fits_room : value v < room k
  pub short : length v ≤ k + 1
  pub total : n ≡ size + length v

Accepted-more :
    (k size n b : ℕ) (bs : List ℕ)
    → 128 ≤ b
    → b < 256
    → Accepted k (suc size) n bs
    → Accepted (suc k) size n (b ∷ bs)
Accepted-more k size n b bs more byte a = record {
  v = b ∷ a.v;
  rest = a.rest;
  split = ap (◌∷◌ b) a.split;
  varint = IsVarint-cons b a.v more byte a.varint;
  fits_room = omega (arith, a.fits_room);
  short = omega (arith, a.short);
  total = omega (arith, a.total);
}

shift_on : (shift k : ℕ) → 2 ^ shift * room (suc k) ≡ 2 ^ 64 → 2 ^ (shift + 7) * room k ≡ 2 ^ 64
shift_on shift k e = rw (shift_step shift) (mul_assoc (2 ^ shift) 128 (room k) ∙ e)

-- One byte of the input, from what the loop does behind it.
sound_byte :
    (k size shift b : ℕ) (bs : List ℕ)
    → 2 ^ shift * room k ≡ 2 ^ 64
    → shift + 7 * k ≡ 63
    → b < 256
    → 0 < size_loop size shift (b ∷ bs)
    → (128 ≤ b
        → 0 < size_loop (suc size) (shift + 7) bs
        → Accepted k size (size_loop (suc size) (shift + 7) bs) (b ∷ bs))
    → Accepted k size (size_loop size shift (b ∷ bs)) (b ∷ bs)
sound_byte k size shift b bs e s byte pos next = elim (lt_or_le (b % 128) (room k)) [
  | inr large ↦
      absurd (omega (arith, size_too_large size shift (room k) b bs (omega arith) e byte large))
  | inl small ↦ elim (lt_or_le b 128) [
    | inl last ↦
        rw (size_last size shift (room k) b bs (omega arith) e byte last (omega arith)) (record {
          v = b ∷ [];
          rest = bs;
          split = refl;
          varint = last;
          fits_room = omega arith;
          short = omega arith;
          total = omega arith;
        })
    | inr more ↦
        let step : size_loop size shift (b ∷ bs) ≡ size_loop (suc size) (shift + 7) bs =
          size_more size shift (room k) b bs (omega arith) e byte more small in
        rw step (next more (rw step at pos))
  ]
]

size_loop_sound :
    (k size shift : ℕ) (bs : List ℕ)
    → 2 ^ shift * room k ≡ 2 ^ 64
    → shift + 7 * k ≡ 63
    → All IsByte bs
    → 0 < size_loop size shift bs
    → Accepted k size (size_loop size shift bs) bs
size_loop_sound k size shift [] e s h pos = absurd (unfold size_loop in omega arith)
size_loop_sound zero size shift (b ∷ bs) e s h pos =
    sound_byte zero size shift b bs e s h.0 pos
      λ more p. absurd (omega (arith, size_far (suc size) (shift + 7) bs (omega arith)))
size_loop_sound (suc k) size shift (b ∷ bs) e s h pos =
    sound_byte (suc k) size shift b bs e s h.0 pos λ more p.
      Accepted-more k size _ b bs more h.0
        (size_loop_sound k (suc size) (shift + 7) bs (shift_on shift k e) (omega arith) h.1 p)

size_loop_complete :
    (k size shift : ℕ) (v rest : List ℕ)
    → 2 ^ shift * room k ≡ 2 ^ 64
    → shift + 7 * k ≡ 63
    → IsVarint v
    → value v < room k
    → length v ≤ k + 1
    → size_loop size shift (v ++ rest) ≡ size + length v
size_loop_complete k size shift [] rest e s h small short = absurd h
size_loop_complete k size shift (b ∷ []) rest e s h small short =
    omega
      (arith, size_last size shift (room k) b rest (omega arith) e (omega arith) h (omega arith))
size_loop_complete zero size shift (b ∷ c ∷ cs) rest e s h small short = absurd (omega arith)
size_loop_complete (suc k) size shift (b ∷ c ∷ cs) rest e s h small short = omega (
  arith,
  size_more size shift (room (suc k)) b (c ∷ cs ++ rest) (omega arith) e h.1 h.0 (omega arith),
  size_loop_complete k (suc size) (shift + 7) (c ∷ cs) rest (shift_on shift k e) (omega arith) h.2
      (omega arith) (omega arith),
)

value_shift :
    (b x index : ℕ) → b % 128 * 2 ^ index + x * 2 ^ (index + 7) ≡ (b % 128 + 128 * x) * 2 ^ index
value_shift b x index = rw (shift_step index) (omega arith)

value_loop_lem :
    (res index : ℕ) (v : List ℕ)
    → All IsByte v
    → res + value v * 2 ^ index < 2 ^ 64
    → value_loop res index v ≡ res + value v * 2 ^ index
unfolding value_loop
value_loop_lem res index [] h lt = omega arith
value_loop_lem res index (b ∷ bs) h lt = ground (
  arith,
  low_seven b,
  value_shift b (value bs) index,
  value_loop_lem (res + b % 128 * 2 ^ index) (index + 7) bs h.1,
)

All-IsByte : (v : List ℕ) → IsVarint v → All IsByte v
All-IsByte [] h = absurd h
All-IsByte (b ∷ []) h = (omega arith, tt)
All-IsByte (b ∷ c ∷ cs) h = (h.1, All-IsByte (c ∷ cs) h.2)

-- What `create` accepts from the front of the input.
pub record IsAccepted (bs v : List ℕ) : Type 0 where
  pub rest : List ℕ
  pub split : bs ≡ v ++ rest
  pub varint : IsVarint v
  pub small : value v < 2 ^ 64
  pub short : length v ≤ 10
  pub number : to_uint64 v ≡ value v

to_uint64_lem : (v : List ℕ) → IsVarint v → value v < 2 ^ 64 → to_uint64 v ≡ value v
unfolding to_uint64
to_uint64_lem v h small = omega (arith, value_loop_lem 0 0 v (All-IsByte v h) (omega arith))

create_pos : (bs : List ℕ) → 0 < size_loop 0 0 bs → create bs ≡ some (take (size_loop 0 0 bs) bs)
unfolding create
create_pos bs pos = ground arith

create_prefix :
    (bs v rest : List ℕ)
    → size_loop 0 0 bs ≡ length v
    → 0 < length v
    → bs ≡ v ++ rest
    → create bs ≡ some v
create_prefix bs v rest n pos e =
    create_pos bs (omega arith) ∙ ap some (rw (n, e) (take-append_exact v rest))

IsVarint-pos : (v : List ℕ) → IsVarint v → 0 < length v
IsVarint-pos [] h = absurd h
IsVarint-pos (b ∷ bs) h = omega arith

-- `create` yields the leading varint of its input, of at most ten bytes, and `toUInt64` reads from
-- it the number that the bytes stand for, which fits 64 bits: nothing is lost by wrapping.
pub create_sound : (bs v : List ℕ) → All IsByte bs → create bs ≡ some v → IsAccepted bs v
unfolding create
create_sound bs v h e = elim (zero_cases (size_loop 0 0 bs)) [
  | inl z ↦ absurd (ground arith)
  | inr pos ↦
      let a : Accepted 9 0 (size_loop 0 0 bs) bs = size_loop_sound 9 0 0 bs refl refl h pos in
      let same : v ≡ a.v = some_inj (
        sym e
        ∙ create_prefix bs a.v a.rest (omega (arith, a.total)) (omega (arith, a.total)) a.split) in
      rw same (record {
        rest = a.rest;
        split = a.split;
        varint = a.varint;
        small = omega (arith, a.fits_room);
        short = omega (arith, a.short);
        number = to_uint64_lem a.v a.varint (omega (arith, a.fits_room));
      })
]

-- Every varint of at most ten bytes whose number fits 64 bits is accepted, whatever follows it.
pub create_complete :
    (v rest : List ℕ)
    → IsVarint v
    → value v < 2 ^ 64
    → length v ≤ 10
    → (create (v ++ rest) ≡ some v) × (to_uint64 v ≡ value v)
unfolding create
create_complete v rest h small short =
    let e : size_loop 0 0 (v ++ rest) ≡ length v =
      omega (arith, size_loop_complete 9 0 0 v rest refl refl h (omega arith) (omega arith)) in
    (create_prefix (v ++ rest) v rest e (IsVarint-pos v h) refl, to_uint64_lem v h small)
