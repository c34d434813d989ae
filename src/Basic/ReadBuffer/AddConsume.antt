-- ===== src/Basic/ReadBuffer/AddConsume.antt =====
-- ReadBuffer::addAndConsume, and `clear`.
use cpp_libp2p.Base.{
  ℕ, suc, ◌-◌, ◌≤◌, ◌<◌, ◌≡◌, refl, sym, ap, ◌∙◌, inl, inr, List, [], ◌∷◌, ◌++◌, append-nil, arith,
  length, take, drop, drop-append_left, drop-append_right, take-append_left, take-append_right,
  take_all, drop_all, zero_cases, lt_or_le,
}
use cpp_libp2p.Basic.ReadBuffer.{
  ReadBuffer, add, consume_all, consume, add_and_consume, add_and_consume_fuel, clear_buffer,
}
use cpp_libp2p.Basic.ReadBuffer.Valid.{IsValid, bytes_of}
use cpp_libp2p.Basic.ReadBuffer.Adding.{AddSpec, add_lem}
use cpp_libp2p.Basic.ReadBuffer.Consuming.{ConsumeSpec, consume_all_lem, consume_lem, bytes_of_zero}

-- The same of `addAndConsume`, over the bytes held and the new ones.
pub record AddConsumeSpec (bytes : List ℕ) (n : ℕ) (b : ReadBuffer) (r : List ℕ × ReadBuffer)
    : Type 0 where
  pub out : r.0 ≡ take n (bytes_of b ++ bytes)
  pub rest : bytes_of r.1 ≡ drop n (bytes_of b ++ bytes)
  pub valid : IsValid r.1

add_and_consume_step_nothing :
    (fuel : ℕ) (n : ℕ) (b : ReadBuffer) → add_and_consume_fuel (suc fuel) [] n b ≡ consume n b
unfolding add_and_consume_fuel
add_and_consume_step_nothing fuel n b = refl

module _ (fuel n : ℕ) (bytes : List ℕ) (b : ReadBuffer) (pos : 0 < length bytes) where
  step_no_room : n ≡ 0 → add_and_consume_fuel (suc fuel) bytes n b ≡ ([], add bytes b)
  unfolding add_and_consume_fuel
  step_no_room z = ground arith

  step_direct :
      0 < n
      → b.total_size ≡ 0
      → length bytes ≤ n
      → add_and_consume_fuel (suc fuel) bytes n b ≡ (bytes, b)
  unfolding add_and_consume_fuel
  step_direct hn z le = ground arith

  step_split :
      0 < n
      → b.total_size ≡ 0
      → n < length bytes
      → add_and_consume_fuel (suc fuel) bytes n b ≡ (take n bytes, add (drop n bytes) b)
  unfolding add_and_consume_fuel
  step_split hn z lt = ground arith

  step_from_buffer :
      0 < n
      → 0 < b.total_size
      → n ≤ b.total_size
      → add_and_consume_fuel (suc fuel) bytes n b ≡ ((consume n b).0, add bytes (consume n b).1)
  unfolding add_and_consume_fuel
  step_from_buffer hn hb le = ground arith

  step_again :
      0 < b.total_size
      → b.total_size < n
      → add_and_consume_fuel (suc fuel) bytes n b ≡ (
        (consume_all b).0
            ++ (add_and_consume_fuel fuel bytes (n - length (consume_all b).0) (consume_all b).1).0,
        (add_and_consume_fuel fuel bytes (n - length (consume_all b).0) (consume_all b).1).1,
      )
  unfolding add_and_consume_fuel
  step_again hb lt = ground arith

add_consume_by_add :
    (bytes : List ℕ) (b : ReadBuffer)
    → AddSpec bytes b (add bytes b)
    → AddConsumeSpec bytes 0 b ([], add bytes b)
add_consume_by_add bytes b a = record { out = refl; rest = a.content; valid = a.valid }

-- On an empty buffer one round is enough.
add_and_consume_empty :
    (fuel n : ℕ) (bytes : List ℕ) (b : ReadBuffer)
    → IsValid b
    → b.total_size ≡ 0
    → 0 < length bytes
    → AddConsumeSpec bytes n b (add_and_consume_fuel (suc fuel) bytes n b)
add_and_consume_empty fuel n bytes b v z pos =
    let e : bytes_of b ≡ [] = bytes_of_zero b v z in
    elim (zero_cases n) [
      | inl zn ↦
          rw (step_no_room fuel n bytes b pos zn, zn)
            (add_consume_by_add bytes b (add_lem bytes b v))
      | inr hn ↦ elim (lt_or_le n (length bytes)) [
        | inr le ↦ rw (step_direct fuel n bytes b pos hn z le) (record {
          out = rw e (sym (take_all n bytes le));
          rest = rw e (sym (drop_all n bytes le));
          valid = v;
        })
        | inl lt ↦
            let a : AddSpec (drop n bytes) b (add (drop n bytes) b) = add_lem (drop n bytes) b v in
            rw (step_split fuel n bytes b pos hn z lt)
              (record { out = rw e; rest = a.content ∙ rw e; valid = a.valid })
      ]
    ]

add_and_consume_nonempty :
    (n : ℕ) (bytes : List ℕ) (b : ReadBuffer)
    → IsValid b
    → 0 < b.total_size
    → 0 < length bytes
    → 0 < n
    → AddConsumeSpec bytes n b (add_and_consume_fuel 2 bytes n b)
add_and_consume_nonempty n bytes b v hb pos hn = elim (lt_or_le b.total_size n) [
  | inr le ↦
      let c : ConsumeSpec n b (consume n b) = consume_lem n b v in
      let a : AddSpec bytes (consume n b).1 (add bytes (consume n b).1) =
        add_lem bytes (consume n b).1 c.valid in
      let fits : n ≤ length (bytes_of b) = omega (arith, v.total) in
      rw (step_from_buffer 1 n bytes b pos hn hb le) (record {
        out = c.out ∙ sym (take-append_left n (bytes_of b) bytes fits);
        rest =
            a.content
            ∙ ap (λ xs. xs ++ bytes) c.rest
            ∙ sym (drop-append_left n (bytes_of b) bytes fits);
        valid = a.valid;
      })
  | inl lt ↦
      let size : ℕ = length (bytes_of b) in
      let le : length (bytes_of b) ≤ n = omega (arith, v.total) in
      let c : ConsumeSpec size b (consume_all b) =
        consume_all_lem size b v hb (omega (arith, v.total)) in
      let all : (consume_all b).0 ≡ bytes_of b = c.out ∙ take_all size (bytes_of b) (omega arith) in
      let none_left : bytes_of (consume_all b).1 ≡ [] =
        c.rest ∙ drop_all size (bytes_of b) (omega arith) in
      let r : AddConsumeSpec bytes (n - length (consume_all b).0) (consume_all b).1
          (add_and_consume_fuel 1 bytes (n - length (consume_all b).0) (consume_all b).1) =
        add_and_consume_empty 0 (n - length (consume_all b).0) bytes (consume_all b).1 c.valid
          (c.valid.total ∙ ap length none_left) pos in
      rw (step_again 1 n bytes b pos hb lt) (record {
        out =
            ap (◌++◌ (consume_all b).0)
              (r.out ∙ ap (λ xs. take (n - length (consume_all b).0) (xs ++ bytes)) none_left)
            ∙ ap (λ xs. xs ++ take (n - length xs) bytes) all
            ∙ sym (take-append_right n (bytes_of b) bytes le);
        rest =
            r.rest
            ∙ ap (λ xs. drop (n - length (consume_all b).0) (xs ++ bytes)) none_left
            ∙ ap (λ xs. drop (n - length xs) bytes) all
            ∙ sym (drop-append_right n (bytes_of b) bytes le);
        valid = r.valid;
      })
]

-- `addAndConsume` is `add` followed by `consume`, whatever it copies directly: out come the first
-- `n` of the bytes held and the new ones, and the buffer holds the others. So the one call that it
-- makes of itself is enough.
pub add_and_consume_lem :
    (bytes : List ℕ) (n : ℕ) (b : ReadBuffer)
    → IsValid b
    → AddConsumeSpec bytes n b (add_and_consume bytes n b)
unfolding add_and_consume
add_and_consume_lem [] n b v =
    let c : ConsumeSpec n b (consume n b) = consume_lem n b v in
    rw (add_and_consume_step_nothing 1 n b) (record {
      out = c.out ∙ ap (take n) (sym (append-nil (bytes_of b)));
      rest = c.rest ∙ ap (drop n) (sym (append-nil (bytes_of b)));
      valid = c.valid;
    })
add_and_consume_lem (x ∷ xs) n b v =
    let pos : 0 < length (x ∷ xs) = omega arith in
    elim (zero_cases b.total_size) [
      | inl z ↦ add_and_consume_empty 1 n (x ∷ xs) b v z pos
      | inr hb ↦ elim (zero_cases n) [
        | inl zn ↦
            rw (step_no_room 1 n (x ∷ xs) b pos zn, zn)
              (add_consume_by_add (x ∷ xs) b (add_lem (x ∷ xs) b v))
        | inr hn ↦ add_and_consume_nonempty n (x ∷ xs) b v hb pos hn
      ]
    ]

pub clear_buffer-IsValid : (b : ReadBuffer) → IsValid b → IsValid (clear_buffer b)
unfolding clear_buffer
clear_buffer-IsValid b v = record { granular = v.granular; total = refl; shape = inl (refl, refl) }
