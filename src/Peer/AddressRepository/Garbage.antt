-- ===== src/Peer/AddressRepository/Garbage.antt =====
-- InmemAddressRepository: the erasing from the order, failed dials, and the collection of garbage.
use cpp_libp2p.Base.{
  ℕ, ◌+◌, ◌≤◌, ◌<◌, ◌≡◌, refl, ap, ◌∙◌, false, Bool-cases, List, [], ◌∷◌, arith, one, one_self,
  one_other, count, inl, inr, keys, if◌then◌else◌, ◌==◌, leb, lt_or_le,
}
use cpp_libp2p.Peer.AddressRepository.{Peer, erase_order, collect_expired}
use cpp_libp2p.Peer.AddressRepository.Adding.{IsValid}

-- One occurrence leaves the order.
erase_known :
    (m : ℕ) (order : List ℕ)
    → 1 ≤ count m order
    → (q : ℕ) → count q (erase_order m order).1 + one q m ≡ count q order
unfolding erase_order
erase_known m [] h q = absurd (omega arith)
erase_known m (x ∷ xs) h q = elim (Bool-cases (x == m)) [
  | inl e ↦ let eq : x ≡ m = ground arith in rw e (omega (arith, ap (one q) eq))
  | inr e ↦ rw e (omega (arith, erase_known m xs (later e) q))
]
  where
    later : (x == m) ≡ false → 1 ≤ count m xs
    later e = let z : (m == x) ≡ false = ground arith in omega (arith, one_other m x z)

-- How many entries of the map have the key `q` and are expired.
abbrev pub expired_count : ℕ → ℕ → List (ℕ × ℕ) → ℕ
expired_count now q [] = 0
expired_count now q ((m, t) ∷ rest) = (if leb t now then one q m else 0) + expired_count now q rest

abbrev pub AllAlive : ℕ → List (ℕ × ℕ) → Type 0
AllAlive now [] = Unit {0}
AllAlive now ((m, t) ∷ rest) = (now < t) × AllAlive now rest

pub record CollectSpec (now : ℕ) (m : List (ℕ × ℕ)) (order : List ℕ)
    (r : List ℕ × List (ℕ × ℕ) × List ℕ) : Type 0 where
  pub alive : AllAlive now r.1
  pub told : (q : ℕ) → count q r.0 ≡ expired_count now q m
  pub split : (q : ℕ) → count q r.0 + count q (keys r.1) ≡ count q (keys m)
  pub order_rest : (q : ℕ) → count q r.2 + count q r.0 ≡ count q order

collect_gone :
    (now m t : ℕ) (rest : List (ℕ × ℕ)) (order : List ℕ)
    → t ≤ now
    → collect_expired now ((m, t) ∷ rest) order ≡ (
      m ∷ (collect_expired now rest (erase_order m order).1).0,
      (collect_expired now rest (erase_order m order).1).1,
      (collect_expired now rest (erase_order m order).1).2,
    )
unfolding collect_expired
collect_gone now m t rest order le = ground arith

collect_alive :
    (now m t : ℕ) (rest : List (ℕ × ℕ)) (order : List ℕ)
    → now < t
    → collect_expired now ((m, t) ∷ rest) order ≡ (
      (collect_expired now rest order).0,
      (m, t) ∷ (collect_expired now rest order).1,
      (collect_expired now rest order).2,
    )
unfolding collect_expired
collect_alive now m t rest order lt = ground arith

collect_loop :
    (now : ℕ) (m : List (ℕ × ℕ)) (order : List ℕ)
    → ((q : ℕ) → count q (keys m) ≤ count q order)
    → CollectSpec now m order (collect_expired now m order)
unfolding collect_expired
collect_loop now [] order h = record {
  alive = tt;
  told = λ q. refl;
  split = λ q. omega arith;
  order_rest = λ q. omega arith;
}
collect_loop now ((m, t) ∷ rest) order h = elim (lt_or_le now t) [
  | inl lt ↦
      let r = collect_loop now rest order (λ q. omega (arith, h q)) in
      rw (collect_alive now m t rest order lt) (record {
        alive = (lt, r.alive);
        told = λ q. r.told q ∙ (ground arith);
        split = λ q. omega (arith, r.split q);
        order_rest = r.order_rest;
      })
  | inr le ↦
      let inside : 1 ≤ count m order = omega (arith, h m, one_self m) in
      let erased = erase_known m order inside in
      let r = collect_loop now rest (erase_order m order).1 (λ q. omega (arith, h q, erased q)) in
      rw (collect_gone now m t rest order le) (record {
        alive = r.alive;
        told = λ q. ap (λ n. one q m + n) (r.told q) ∙ (ground arith);
        split = λ q. omega (arith, r.split q);
        order_rest = λ q. omega (arith, r.order_rest q, erased q);
      })
]

-- Collecting the garbage of a peer keeps the order in step with the map: exactly the expired
-- addresses are told removed, the others stay and are not expired, and the order loses exactly the
-- addresses that are told.
pub collect_expired_lem :
    (now : ℕ) (peer : Peer)
    → IsValid peer
    → CollectSpec now peer.expires peer.order (collect_expired now peer.expires peer.order)
      × IsValid (record {
        expires = (collect_expired now peer.expires peer.order).1;
        order = (collect_expired now peer.expires peer.order).2;
      })
collect_expired_lem now peer v =
    let r = collect_loop now peer.expires peer.order (λ q. omega (arith, v.same q)) in
    (
      r,
      record {
        same = λ q. omega (arith, r.split q, r.order_rest q, v.same q);
        unique = λ q. omega (arith, r.order_rest q, v.unique q);
      },
    )
