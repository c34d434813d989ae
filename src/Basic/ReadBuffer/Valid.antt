-- ===== src/Basic/ReadBuffer/Valid.antt =====
-- The invariant of the read buffer.
use cpp_libp2p.Base.{
  ℕ, ◌+◌, ◌≤◌, ◌<◌, ◌≡◌, refl, sym, ap, ◌∙◌, ◌⊎◌, inl, List, [], ◌∷◌, ◌++◌, append_assoc, length,
}
use cpp_libp2p.Basic.ReadBuffer.{Fragment, ReadBuffer, empty_buffer, joined, contents}

pub record Fits (f : Fragment) : Type 0 where
  pub within : length f.bytes ≤ f.capacity
  pub positive : 0 < f.capacity

-- Every fragment fits its capacity, all but the first hold a byte, and the last has `room` left.
abbrev pub Frags : ℕ → List Fragment → Type 0
Frags room [] = ⊥
Frags room (f ∷ []) = Fits f × (length f.bytes + room ≤ f.capacity)
Frags room (f ∷ g ∷ gs) = Fits f × (0 < length g.bytes) × Frags room (g ∷ gs)

-- There is a byte to read, in the first fragment.
abbrev pub Ready : ℕ → ℕ → List Fragment → Type 0
Ready offset room [] = ⊥
Ready offset room (f ∷ fs) = (offset < length f.bytes) × Frags room (f ∷ fs)

-- Nothing to read: no fragment, or one that was kept for the bytes to come.
abbrev pub Idle : ℕ → ℕ → List Fragment → Type 0
Idle offset room [] = (offset ≡ 0) × (room ≡ 0)
Idle offset room (f ∷ []) = (offset ≡ 0) × (length f.bytes ≡ 0) × (0 < room) × (room ≤ f.capacity)
Idle offset room (f ∷ g ∷ gs) = ⊥

pub record IsValid (b : ReadBuffer) : Type 0 where
  pub granular : 0 < b.alloc_granularity
  pub total : b.total_size ≡ length (contents b.first_byte_offset b.fragments)
  pub shape :
      Idle b.first_byte_offset b.capacity_remains b.fragments
      ⊎ Ready b.first_byte_offset b.capacity_remains b.fragments

-- The bytes that the buffer holds, in order.
abbrev pub bytes_of : ReadBuffer → List ℕ
bytes_of b = contents b.first_byte_offset b.fragments

pub empty_buffer-IsValid : (g : ℕ) → 0 < g → IsValid (empty_buffer g)
empty_buffer-IsValid g h = record { granular = h; total = refl; shape = inl (refl, refl) }

joined-append : (fs gs : List Fragment) → joined (fs ++ gs) ≡ joined fs ++ joined gs
joined-append [] gs = refl
joined-append (f ∷ fs) gs =
    ap (◌++◌ f.bytes) (joined-append fs gs) ∙ sym (append_assoc f.bytes (joined fs) (joined gs))
