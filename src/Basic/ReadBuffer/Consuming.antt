-- ===== src/Basic/ReadBuffer/Consuming.antt =====
-- ReadBuffer::consume: the buffer is a first-in first-out sequence of bytes.
use cpp_libp2p.Base.{
  ℕ, ◌-◌, ◌≤◌, ◌<◌, ◌≡◌, refl, sym, ap, ◌⊎◌, inl, inr, none, some, List, [], ◌∷◌, arith, length,
  length-append, length-drop, take, drop, take_all, drop_all, zero_cases, lt_or_le, length_zero,
  ◌⊎◌, Option-cases,
}
use cpp_libp2p.Basic.ReadBuffer.{
  Fragment, ReadBuffer, contents, kept_fragment, consume_all, consume_loop, consume,
}
use cpp_libp2p.Basic.ReadBuffer.Valid.{Frags, Ready, Idle, IsValid, bytes_of}
use cpp_libp2p.Basic.ReadBuffer.Loop.{Consumes, consume_loop_lem}

kept-Idle :
    (granularity : ℕ) (fs : List Fragment) (f : Fragment) (room : ℕ)
    → Frags room fs
    → kept_fragment granularity fs ≡ some f
    → Idle 0 f.capacity (f ∷ [])
unfolding kept_fragment
kept-Idle granularity [] f room h e = cc
kept-Idle granularity (x ∷ []) f room h e = ground (arith, h.0.positive)
kept-Idle granularity (x ∷ y ∷ ys) f room h e =
    ground (arith, h.0.positive, kept-Idle granularity (y ∷ ys) f room h.2)

pub record ConsumeSpec (n : ℕ) (b : ReadBuffer) (r : List ℕ × ReadBuffer) : Type 0 where
  pub out : r.0 ≡ take n (bytes_of b)
  pub rest : bytes_of r.1 ≡ drop n (bytes_of b)
  pub valid : IsValid r.1

Ready-of_total :
    (b : ReadBuffer)
    → IsValid b
    → 0 < b.total_size
    → Ready b.first_byte_offset b.capacity_remains b.fragments
Ready-of_total b v pos = go b.fragments (omega (arith, v.total)) v.shape
  where
    go :
        (fs : List Fragment)
        → 0 < length (contents b.first_byte_offset fs)
        → Idle b.first_byte_offset b.capacity_remains fs
          ⊎ Ready b.first_byte_offset b.capacity_remains fs
        → Ready b.first_byte_offset b.capacity_remains fs
    go [] lt s = absurd (omega arith)
    go (f ∷ []) lt (inl h) = absurd (
        omega (
          arith,
          h.1,
          length-append (drop b.first_byte_offset f.bytes) [],
          length-drop b.first_byte_offset f.bytes,
        ))
    go (f ∷ x ∷ xs) lt (inl h) = absurd h
    go (f ∷ fs) lt (inr h) = h

Frags-of_Ready : (offset room : ℕ) (fs : List Fragment) → Ready offset room fs → Frags room fs
Frags-of_Ready offset room [] h = absurd h
Frags-of_Ready offset room (f ∷ fs) h = h.1

consume_all-none :
    (b : ReadBuffer)
    → kept_fragment b.alloc_granularity b.fragments ≡ none
    → consume_all b ≡ (
      bytes_of b,
      record b { total_size = 0; first_byte_offset = 0; capacity_remains = 0; fragments = [] },
    )
unfolding consume_all
consume_all-none b e = rw e

consume_all-some :
    (b : ReadBuffer) (f : Fragment)
    → kept_fragment b.alloc_granularity b.fragments ≡ some f
    → consume_all b ≡ (
      bytes_of b,
      record b {
        total_size = 0;
        first_byte_offset = 0;
        capacity_remains = f.capacity;
        fragments = f ∷ [];
      },
    )
unfolding consume_all
consume_all-some b f e = rw e

pub consume_all_lem :
    (n : ℕ) (b : ReadBuffer)
    → IsValid b
    → 0 < b.total_size
    → b.total_size ≤ n
    → ConsumeSpec n b (consume_all b)
consume_all_lem n b v pos le =
    let none_left : drop n (bytes_of b) ≡ [] = drop_all n (bytes_of b) (omega (arith, v.total)) in
    let all_out : bytes_of b ≡ take n (bytes_of b) =
      sym (take_all n (bytes_of b) (omega (arith, v.total))) in
    elim (Option-cases (kept_fragment b.alloc_granularity b.fragments)) [
      | inl e ↦ rw (consume_all-none b e) (record {
        out = all_out;
        rest = sym none_left;
        valid = record { granular = v.granular; total = refl; shape = inl (refl, refl) };
      })
      | inr (f, e) ↦
          let idle : Idle 0 f.capacity (f ∷ []) =
            kept-Idle b.alloc_granularity b.fragments f b.capacity_remains
              (Frags-of_Ready _ _ b.fragments (Ready-of_total b v pos)) e in
          let no_bytes : f.bytes ≡ [] = length_zero f.bytes idle.1 in
          rw (consume_all-some b f e) (record {
            out = all_out;
            rest = rw no_bytes (sym none_left);
            valid = record { granular = v.granular; total = rw no_bytes; shape = inl idle };
          })
    ]

consume_nothing : (n : ℕ) (b : ReadBuffer) → b.total_size ≡ 0 → consume n b ≡ ([], b)
unfolding consume
consume_nothing n b z = ground arith

consume_everything :
    (n : ℕ) (b : ReadBuffer) → 0 < b.total_size → b.total_size ≤ n → consume n b ≡ consume_all b
unfolding consume
consume_everything n b pos le = ground arith

consume_some :
    (n : ℕ) (b : ReadBuffer)
    → n < b.total_size
    → consume n b ≡ (
      (consume_loop n n b.first_byte_offset b.fragments).0,
      record b {
        total_size = b.total_size - n;
        first_byte_offset = (consume_loop n n b.first_byte_offset b.fragments).1;
        fragments = (consume_loop n n b.first_byte_offset b.fragments).2;
      },
    )
unfolding consume
consume_some n b lt = ground arith

pub bytes_of_zero : (b : ReadBuffer) → IsValid b → b.total_size ≡ 0 → bytes_of b ≡ []
bytes_of_zero b v z = length_zero (bytes_of b) (omega (arith, v.total))

-- `consume` into a span of `n` bytes copies out the first `n` bytes, or all if there are fewer, and
-- the buffer holds the others; the invariant is kept.
pub consume_lem : (n : ℕ) (b : ReadBuffer) → IsValid b → ConsumeSpec n b (consume n b)
consume_lem n b v = elim (zero_cases b.total_size) [
  | inl z ↦
      let e : bytes_of b ≡ [] = bytes_of_zero b v z in
      rw (consume_nothing n b z) (record {
        out = rw e (sym (take_all n [] (omega arith)));
        rest = rw e (sym (drop_all n [] (omega arith)));
        valid = v;
      })
  | inr pos ↦ elim (lt_or_le n b.total_size) [
    | inr le ↦ rw (consume_everything n b pos le) (consume_all_lem n b v pos le)
    | inl lt ↦
        let c : Consumes n b.first_byte_offset b.capacity_remains b.fragments
            (consume_loop n n b.first_byte_offset b.fragments) =
          consume_loop_lem n n b.first_byte_offset b.capacity_remains b.fragments (omega arith)
            (Ready-of_total b v pos) (omega (arith, v.total)) in
        rw (consume_some n b lt) (record {
          out = c.out;
          rest = c.rest;
          valid = record {
            granular = v.granular;
            total = omega (arith, v.total, ap length c.rest, length-drop n (bytes_of b));
            shape = inr c.ready;
          };
        })
  ]
]
