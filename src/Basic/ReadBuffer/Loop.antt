-- ===== src/Basic/ReadBuffer/Loop.antt =====
-- The loop of ReadBuffer::consume: how many bytes it takes, and what it leaves.
use cpp_libp2p.Base.{
  ℕ, zero, suc, ◌+◌, ◌-◌, ◌≤◌, ◌<◌, ◌≡◌, refl, sym, ap, ◌∙◌, inl, inr, List, [], ◌∷◌, ◌++◌,
  append-nil, arith, length, length-append, length-take, length-drop, take, drop, drop-append_left,
  drop-append_right, take-append_left, take-append_right, take_all, drop-drop, zero_cases, lt_or_le,
}
use cpp_libp2p.Basic.ReadBuffer.{Fragment, joined, contents, consume_part, consume_loop}
use cpp_libp2p.Basic.ReadBuffer.Valid.{Ready}

-- `consumePart` inside the first fragment, and over all of it.
consume_part_inside :
    (n offset : ℕ) (f : Fragment) (fs : List Fragment)
    → offset + n < length f.bytes
    → consume_part n offset (f ∷ fs) ≡ (take n (drop offset f.bytes), offset + n, f ∷ fs)
unfolding consume_part
consume_part_inside n offset f fs lt = ground arith

consume_part_over :
    (n offset : ℕ) (f : Fragment) (fs : List Fragment)
    → offset < length f.bytes
    → length f.bytes ≤ offset + n
    → consume_part n offset (f ∷ fs) ≡ (drop offset f.bytes, 0, fs)
unfolding consume_part
consume_part_over n offset f fs lt le = ground (
  arith,
  take_all (length f.bytes - offset) (drop offset f.bytes)
      (omega (arith, length-drop offset f.bytes)),
  take_all n (drop offset f.bytes) (omega (arith, length-drop offset f.bytes)),
)

-- What a run of the loop leaves: the first `n` bytes are out, and the rest is in place.
pub record Consumes (n offset room : ℕ) (fs : List Fragment) (r : List ℕ × ℕ × List Fragment)
    : Type 0 where
  pub out : r.0 ≡ take n (contents offset fs)
  pub rest : contents r.1 r.2 ≡ drop n (contents offset fs)
  pub ready : Ready r.1 room r.2

consume_loop_done :
    (fuel offset : ℕ) (fs : List Fragment) → consume_loop fuel 0 offset fs ≡ ([], offset, fs)
unfolding consume_loop
consume_loop_done zero offset fs = refl
consume_loop_done (suc fuel) offset fs = refl

consume_loop_step :
    (fuel n offset offset1 : ℕ) (fs fs1 : List Fragment) (out : List ℕ)
    → 0 < n
    → consume_part n offset fs ≡ (out, offset1, fs1)
    → consume_loop (suc fuel) n offset fs ≡ (
      out ++ (consume_loop fuel (n - length out) offset1 fs1).0,
      (consume_loop fuel (n - length out) offset1 fs1).1,
      (consume_loop fuel (n - length out) offset1 fs1).2,
    )
unfolding consume_loop
consume_loop_step fuel n offset offset1 fs fs1 out pos e = ground arith

Consumes-nothing :
    (offset room : ℕ) (fs : List Fragment)
    → Ready offset room fs
    → Consumes 0 offset room fs ([], offset, fs)
Consumes-nothing offset room fs r = record { out = refl; rest = refl; ready = r }

-- A run that ends inside the first fragment.
Consumes-inside :
    (fuel n offset room : ℕ) (f : Fragment) (fs : List Fragment)
    → 0 < n
    → offset + n < length f.bytes
    → Ready offset room (f ∷ fs)
    → Consumes n offset room (f ∷ fs) (consume_loop (suc fuel) n offset (f ∷ fs))
Consumes-inside fuel n offset room f fs pos inside r =
    let left : n - length (take n (drop offset f.bytes)) ≡ 0 =
      omega (arith, length-take n (drop offset f.bytes), length-drop offset f.bytes) in
    let le : n ≤ length (drop offset f.bytes) = omega (arith, length-drop offset f.bytes) in
    rw
      (
        consume_loop_step fuel n offset (offset + n) (f ∷ fs) (f ∷ fs) _ pos
            (consume_part_inside n offset f fs inside),
        left,
        consume_loop_done fuel (offset + n) (f ∷ fs),
      )
      (record {
        out =
            append-nil (take n (drop offset f.bytes))
            ∙ sym (take-append_left n (drop offset f.bytes) (joined fs) le);
        rest = sym (
            drop-append_left n (drop offset f.bytes) (joined fs) le
            ∙ ap (λ xs. xs ++ joined fs) (drop-drop offset n f.bytes));
        ready = (inside, r.1);
      })

-- A run that goes past the first fragment, from a run over the others.
Consumes-over :
    (fuel n offset room : ℕ) (f : Fragment) (fs : List Fragment)
    → 0 < n
    → offset < length f.bytes
    → length f.bytes ≤ offset + n
    → contents 0 fs ≡ joined fs
    → Consumes
        (n - length (drop offset f.bytes))
        0
        room
        fs
        (consume_loop fuel (n - length (drop offset f.bytes)) 0 fs)
    → Consumes n offset room (f ∷ fs) (consume_loop (suc fuel) n offset (f ∷ fs))
Consumes-over fuel n offset room f fs pos inner le flat c =
    let ge : length (drop offset f.bytes) ≤ n = omega (arith, length-drop offset f.bytes) in
    rw
      (consume_loop_step fuel n offset 0 (f ∷ fs) fs (drop offset f.bytes) pos
        (consume_part_over n offset f fs inner le))
      (record {
        out =
            ap (◌++◌ (drop offset f.bytes))
              (c.out ∙ ap (take (n - length (drop offset f.bytes))) flat)
            ∙ sym (take-append_right n (drop offset f.bytes) (joined fs) ge);
        rest =
            c.rest
            ∙ ap (drop (n - length (drop offset f.bytes))) flat
            ∙ sym (drop-append_right n (drop offset f.bytes) (joined fs) ge);
        ready = c.ready;
      })

pub consume_loop_lem :
    (fuel n offset room : ℕ) (fs : List Fragment)
    → n ≤ fuel
    → Ready offset room fs
    → n < length (contents offset fs)
    → Consumes n offset room fs (consume_loop fuel n offset fs)
consume_loop_lem fuel n offset room [] h r lt = absurd r
consume_loop_lem zero n offset room (f ∷ fs) h r lt =
    let z : n ≡ 0 = omega arith in
    rw (z, consume_loop_done zero offset (f ∷ fs)) (Consumes-nothing offset room (f ∷ fs) r)
consume_loop_lem (suc fuel) n offset room (f ∷ []) h r lt = elim (zero_cases n) [
  | inl z ↦
      rw (z, consume_loop_done (suc fuel) offset (f ∷ [])) (Consumes-nothing offset room (f ∷ []) r)
  | inr pos ↦
      Consumes-inside fuel n offset room f [] pos
        (omega (
          arith,
          length-append (drop offset f.bytes) [],
          length-drop offset f.bytes,
          ap length (append-nil (drop offset f.bytes)),
        ))
        r
]
consume_loop_lem (suc fuel) n offset room (f ∷ g ∷ gs) h r lt = elim (zero_cases n) [
  | inl z ↦
      rw (z, consume_loop_done (suc fuel) offset (f ∷ g ∷ gs))
        (Consumes-nothing offset room (f ∷ g ∷ gs) r)
  | inr pos ↦ elim (lt_or_le (offset + n) (length f.bytes)) [
    | inl inside ↦ Consumes-inside fuel n offset room f (g ∷ gs) pos inside r
    | inr over ↦ Consumes-over fuel n offset room f (g ∷ gs) pos r.0 over refl (
        consume_loop_lem fuel (n - length (drop offset f.bytes)) 0 room (g ∷ gs)
          (omega (arith, length-drop offset f.bytes, r.0)) (r.1.1, r.1.2)
          (omega (
            arith,
            length-drop offset f.bytes,
            length-append (drop offset f.bytes) (joined (g ∷ gs)),
          )))
  ]
]
