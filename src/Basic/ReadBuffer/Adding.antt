-- ===== src/Basic/ReadBuffer/Adding.antt =====
-- ReadBuffer::add: the new bytes go behind all others, and the invariant is kept.
use cpp_libp2p.Base.{
  ℕ, ◌+◌, ◌-◌, ◌≤◌, ◌<◌, ◌≡◌, refl, sym, ap, ◌∙◌, ◌⊎◌, inl, inr, List, [], ◌∷◌, ◌++◌, append-nil,
  append_assoc, arith, length, length-append, drop, drop-append_left, zero_cases, lt_or_le,
  length_zero,
}
use cpp_libp2p.Basic.ReadBuffer.{
  Fragment, ReadBuffer, reserve, insert_end, modify_back, add, joined, contents,
}
use cpp_libp2p.Basic.ReadBuffer.Valid.{Fits, Frags, Ready, Idle, IsValid, bytes_of}

-- A change of the last fragment that appends `bytes` and leaves `room'` behind them.
record Appends (bytes : List ℕ) (room room' : ℕ) (g : Fragment → Fragment) : Type 0 where
  appended : (f : Fragment) → (g f).bytes ≡ f.bytes ++ bytes
  fits :
      (f : Fragment)
      → length f.bytes + room ≤ f.capacity
      → length (g f).bytes + room' ≤ (g f).capacity
  positive : (f : Fragment) → 0 < f.capacity → 0 < (g f).capacity

module _ (bytes : List ℕ) (room room' : ℕ) (g : Fragment → Fragment)
    (a : Appends bytes room room' g) where
  Fits-change : (f : Fragment) → Fits f → length f.bytes + room ≤ f.capacity → Fits (g f)
  Fits-change f h le = record {
    within = omega (arith, a.fits f le);
    positive = a.positive f h.positive;
  }

  joined-modify_back :
      (f : Fragment) (fs : List Fragment)
      → joined (modify_back g (f ∷ fs)) ≡ joined (f ∷ fs) ++ bytes
  unfolding modify_back
  joined-modify_back f [] = rw (a.appended f, append-nil, append-nil)
  joined-modify_back f (x ∷ xs) =
      ap (◌++◌ f.bytes) (joined-modify_back x xs)
      ∙ sym (append_assoc f.bytes (joined (x ∷ xs)) bytes)

  contents-modify_back :
      (offset : ℕ) (f : Fragment) (fs : List Fragment)
      → offset ≤ length f.bytes
      → contents offset (modify_back g (f ∷ fs)) ≡ contents offset (f ∷ fs) ++ bytes
  unfolding modify_back
  contents-modify_back offset f [] le =
      rw (a.appended f, append-nil, append-nil) (drop-append_left offset f.bytes bytes le)
  contents-modify_back offset f (x ∷ xs) le =
      ap (◌++◌ (drop offset f.bytes)) (joined-modify_back x xs)
      ∙ sym (append_assoc (drop offset f.bytes) (joined (x ∷ xs)) bytes)

  Frags-modify_back :
      (f : Fragment) (fs : List Fragment)
      → Frags room (f ∷ fs)
      → Frags room' (modify_back g (f ∷ fs))
  unfolding modify_back
  Frags-modify_back f [] h = (Fits-change f h.0 h.1, a.fits f h.1)
  Frags-modify_back f (x ∷ []) h =
      let e : length (g x).bytes ≡ length x.bytes + length bytes =
        ap length (a.appended x) ∙ length-append x.bytes bytes in
      (h.0, omega arith, Frags-modify_back x [] h.2)
  Frags-modify_back f (x ∷ y ∷ ys) h = (h.0, h.1, Frags-modify_back x (y ∷ ys) h.2)

  -- Appending to the last fragment, where there is one with room.
  Ready-modify_back :
      (offset : ℕ) (fs : List Fragment)
      → 0 < length bytes
      → 0 < room
      → Idle offset room fs ⊎ Ready offset room fs
      → Ready offset room' (modify_back g fs)
        × (contents offset (modify_back g fs) ≡ contents offset fs ++ bytes)
  Ready-modify_back offset [] hb hr (inl h) = absurd (omega (arith, h.1))
  Ready-modify_back offset [] hb hr (inr h) = absurd h
  Ready-modify_back offset (f ∷ []) hb hr (inl h) =
      let fr : Frags room (f ∷ []) = (
        record { within = omega (arith, h.1); positive = omega (arith, h.3) },
        omega (arith, h.1, h.3),
      ) in
      let e : length (g f).bytes ≡ length f.bytes + length bytes =
        ap length (a.appended f) ∙ length-append f.bytes bytes in
      (
        (unfold modify_back in (omega (arith, h.0), Frags-modify_back f [] fr)),
        contents-modify_back offset f [] (omega (arith, h.0)),
      )
  Ready-modify_back offset (f ∷ x ∷ xs) hb hr (inl h) = absurd h
  Ready-modify_back offset (f ∷ []) hb hr (inr h) =
      let e : length (g f).bytes ≡ length f.bytes + length bytes =
        ap length (a.appended f) ∙ length-append f.bytes bytes in
      (
        (unfold modify_back in (omega (arith, h.0), Frags-modify_back f [] h.1)),
        contents-modify_back offset f [] (omega (arith, h.0)),
      )
  Ready-modify_back offset (f ∷ x ∷ xs) hb hr (inr h) = (
    (unfold modify_back in (h.0, Frags-modify_back f (x ∷ xs) h.1)),
    contents-modify_back offset f (x ∷ xs) (omega (arith, h.0)),
  )

insert_end-Appends :
    (bytes : List ℕ) (room : ℕ)
    → length bytes ≤ room
    → Appends bytes room (room - length bytes) (insert_end bytes)
insert_end-Appends bytes room le = record {
  appended = λ f. refl;
  fits = λ f h. rw (length-append f.bytes bytes) (omega arith);
  positive = λ f h. omega arith;
}

grow-Appends :
    (bytes : List ℕ) (room granularity : ℕ)
    → Appends bytes room granularity
        (λ f. insert_end bytes (reserve (length f.bytes + length bytes + granularity) f))
grow-Appends bytes room granularity = record {
  appended = λ f. refl;
  fits = λ f h. rw (length-append f.bytes bytes) (omega arith);
  positive = λ f h. omega arith;
}

-- The fragment that `add` starts for `bytes`.
abbrev new_fragment : List ℕ → ℕ → Fragment
new_fragment bytes granularity =
    insert_end bytes (reserve (length bytes + granularity) (record { bytes = []; capacity = 0 }))

new_fragment-Frags :
    (bytes : List ℕ) (granularity : ℕ)
    → 0 < length bytes
    → Frags granularity (new_fragment bytes granularity ∷ [])
new_fragment-Frags bytes granularity h =
    (record { within = omega arith; positive = omega arith }, omega arith)

Frags-push :
    (bytes : List ℕ) (room granularity : ℕ) (f : Fragment) (fs : List Fragment)
    → 0 < length bytes
    → Frags room (f ∷ fs)
    → Frags granularity ((f ∷ fs) ++ new_fragment bytes granularity ∷ [])
Frags-push bytes room granularity f [] hb h = (h.0, hb, new_fragment-Frags bytes granularity hb)
Frags-push bytes room granularity f (x ∷ xs) hb h =
    (h.0, h.1, Frags-push bytes room granularity x xs hb h.2)

-- Starting a new fragment, where the last one has no room.
Ready-push :
    (bytes : List ℕ) (offset granularity : ℕ) (fs : List Fragment)
    → 0 < length bytes
    → Idle offset 0 fs ⊎ Ready offset 0 fs
    → Ready offset granularity (fs ++ new_fragment bytes granularity ∷ [])
      × (contents offset (fs ++ new_fragment bytes granularity ∷ []) ≡ contents offset fs ++ bytes)
Ready-push bytes offset granularity [] hb (inl h) =
    ((omega (arith, h.0), new_fragment-Frags bytes granularity hb), rw (h.0, append-nil))
Ready-push bytes offset granularity [] hb (inr h) = absurd h
Ready-push bytes offset granularity (f ∷ []) hb (inl h) = absurd (omega (arith, h.2))
Ready-push bytes offset granularity (f ∷ x ∷ xs) hb (inl h) = absurd h
Ready-push bytes offset granularity (f ∷ fs) hb (inr h) = (
  (h.0, Frags-push bytes 0 granularity f fs hb h.1),
  ap (◌++◌ (drop offset f.bytes)) (joined-push fs)
      ∙ sym (append_assoc (drop offset f.bytes) (joined fs) bytes),
)
  where
    joined-push :
        (gs : List Fragment)
        → joined (gs ++ new_fragment bytes granularity ∷ []) ≡ joined gs ++ bytes
    joined-push [] = append-nil bytes
    joined-push (y ∷ ys) =
        ap (◌++◌ y.bytes) (joined-push ys) ∙ sym (append_assoc y.bytes (joined ys) bytes)

pub record AddSpec (bytes : List ℕ) (b c : ReadBuffer) : Type 0 where
  pub valid : IsValid c
  pub content : bytes_of c ≡ bytes_of b ++ bytes

Ready-AddSpec :
    (bytes : List ℕ) (b : ReadBuffer) (room : ℕ) (fs : List Fragment)
    → IsValid b
    → Ready b.first_byte_offset room fs × (contents b.first_byte_offset fs ≡ bytes_of b ++ bytes)
    → AddSpec bytes b (record b {
      fragments = fs;
      capacity_remains = room;
      total_size = b.total_size + length bytes;
    })
Ready-AddSpec bytes b room fs v (r, c) = record {
  valid = record {
    granular = v.granular;
    total = omega (arith, v.total, ap length c, length-append (bytes_of b) bytes);
    shape = inr r;
  };
  content = c;
}

add_nothing : (bytes : List ℕ) (b : ReadBuffer) → length bytes ≡ 0 → add bytes b ≡ b
unfolding add
add_nothing bytes b z = ground arith

module _ (bytes : List ℕ) (b : ReadBuffer) (pos : 0 < length bytes) where
  add_fitting :
      length bytes ≤ b.capacity_remains
      → add bytes b ≡ record b {
        fragments = modify_back (insert_end bytes) b.fragments;
        capacity_remains = b.capacity_remains - length bytes;
        total_size = b.total_size + length bytes;
      }
  unfolding add
  add_fitting le = ground arith

  add_growing :
      0 < b.capacity_remains
      → b.capacity_remains < length bytes
      → add bytes b ≡ record b {
        fragments =
            modify_back
              (λ f.
                insert_end bytes (reserve (length f.bytes + length bytes + b.alloc_granularity) f))
              b.fragments;
        capacity_remains = b.alloc_granularity;
        total_size = b.total_size + length bytes;
      }
  unfolding add
  add_growing some lt = ground arith

  add_new :
      b.capacity_remains ≡ 0
      → add bytes b ≡ record b {
        fragments = b.fragments ++ new_fragment bytes b.alloc_granularity ∷ [];
        capacity_remains = b.alloc_granularity;
        total_size = b.total_size + length bytes;
      }
  unfolding add
  add_new none_left = ground arith

-- `add` puts its bytes behind the ones that the buffer holds, on every branch of its allocation
-- scheme, and keeps the invariant.
pub add_lem : (bytes : List ℕ) (b : ReadBuffer) → IsValid b → AddSpec bytes b (add bytes b)
add_lem bytes b v = elim (zero_cases (length bytes)) [
  | inl z ↦
      rw (add_nothing bytes b z)
        (record { valid = v; content = rw (length_zero bytes z) (sym (append-nil (bytes_of b))) })
  | inr pos ↦ elim (lt_or_le b.capacity_remains (length bytes)) [
    | inr le ↦ rw (add_fitting bytes b pos le) (
        Ready-AddSpec bytes b _ _ v (
          Ready-modify_back bytes b.capacity_remains _ (insert_end bytes)
            (insert_end-Appends bytes b.capacity_remains le) b.first_byte_offset b.fragments pos
            (omega arith) v.shape))
    | inl lt ↦ elim (zero_cases b.capacity_remains) [
      | inr room ↦ rw (add_growing bytes b pos room lt) (
          Ready-AddSpec bytes b _ _ v (
            Ready-modify_back bytes b.capacity_remains b.alloc_granularity _
              (grow-Appends bytes b.capacity_remains b.alloc_granularity) b.first_byte_offset
              b.fragments pos room v.shape))
      | inl full ↦ rw (add_new bytes b pos full) (
          Ready-AddSpec bytes b _ _ v (
            Ready-push bytes b.first_byte_offset b.alloc_granularity b.fragments pos
              (rw full at v.shape)))
    ]
  ]
]
