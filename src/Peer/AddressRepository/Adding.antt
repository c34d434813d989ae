-- ===== src/Peer/AddressRepository/Adding.antt =====
-- InmemAddressRepository: the order lists exactly the addresses of the map, when some are added,
-- refreshed, or fail to be dialled.
use cpp_libp2p.Base.{
  ℕ, ◌+◌, ◌≤◌, ◌≡◌, refl, ap, ◌∙◌, sym, Bool, true, false, Bool-cases, Option-cases, none, some,
  List, [], ◌∷◌, ◌++◌, arith, one_le, one_other, one_self, All, ◌↔◌, count-find_some, count,
  count-append, inl, inr, find_key, put_key, keys, count-find_none, count-put_none, keys-put_some,
  if◌then◌else◌, ◌==◌,
}
use cpp_libp2p.Peer.AddressRepository.{
  Peer, Signal, address_added, address_removed, put_address, put_addresses,
}

-- The order holds each address of the map once, and no other.
pub record IsValid (peer : Peer) : Type 0 where
  pub same : (q : ℕ) → count q peer.order ≡ count q (keys peer.expires)
  pub unique : (q : ℕ) → count q peer.order ≤ 1

put_known :
    (refresh : Bool) (t m old : ℕ) (peer : Peer)
    → find_key m peer.expires ≡ some old
    → put_address refresh t m peer
      ≡ (false, if refresh then record peer { expires = put_key m t peer.expires } else peer)
unfolding put_address
put_known refresh t m old peer h = ground arith

put_new :
    (refresh : Bool) (t m : ℕ) (peer : Peer)
    → find_key m peer.expires ≡ none
    → put_address refresh t m peer
      ≡ (true, record { expires = put_key m t peer.expires; order = peer.order ++ m ∷ [] })
unfolding put_address
put_new refresh t m peer h = ground arith

pub new-IsValid :
    (t m : ℕ) (peer : Peer)
    → IsValid peer
    → find_key m peer.expires ≡ none
    → IsValid (record { expires = put_key m t peer.expires; order = peer.order ++ m ∷ [] })
new-IsValid t m peer v h = record {
  same = λ q.
      omega
        (arith, count-append q peer.order (m ∷ []), count-put_none q m t peer.expires h, v.same q);
  unique = λ q. at q;
}
  where
    at : (q : ℕ) → count q (peer.order ++ m ∷ []) ≤ 1
    at q = elim (Bool-cases (q == m)) [
      | inl e ↦
          let eq : q ≡ m = ground arith in
          omega (
            arith,
            count-append q peer.order (m ∷ []),
            ap (λ k. count k peer.order) eq,
            v.same m,
            count-find_none m peer.expires h,
            one_le q m,
          )
      | inr e ↦ omega (arith, count-append q peer.order (m ∷ []), v.unique q, one_other q m e)
    ]

abbrev pub told_added : List Signal → List ℕ
told_added [] = []
told_added (address_added p m ∷ es) = m ∷ told_added es
told_added (address_removed p m ∷ es) = told_added es

-- What adding the addresses `ms` does.
pub record PutSpec (ms : List ℕ) (peer : Peer) (r : Bool × List Signal × Peer) : Type 0 where
  pub valid : IsValid r.2
  pub told : (q : ℕ) → count q r.2.order ≡ count q peer.order + count q (told_added r.1)
  pub present : All (λ m. 1 ≤ count m r.2.order) ms
  pub answer : (r.0 ≡ false) ↔ (r.1 ≡ [])

refreshed-IsValid :
    (t m old : ℕ) (peer : Peer)
    → IsValid peer
    → find_key m peer.expires ≡ some old
    → IsValid (record peer { expires = put_key m t peer.expires })
refreshed-IsValid t m old peer v h = record {
  same = λ q. v.same q ∙ ap (count q) (sym (keys-put_some m t old peer.expires h));
  unique = v.unique;
}

-- The peer after a known address.
abbrev after_known : Bool → ℕ → ℕ → Peer → Peer
after_known refresh t m peer =
    if refresh then record peer { expires = put_key m t peer.expires } else peer

known-IsValid :
    (refresh : Bool) (t m old : ℕ) (peer : Peer)
    → IsValid peer
    → find_key m peer.expires ≡ some old
    → IsValid (after_known refresh t m peer)
known-IsValid true t m old peer v h = refreshed-IsValid t m old peer v h
known-IsValid false t m old peer v h = v

known-order :
    (refresh : Bool) (t m : ℕ) (peer : Peer) → (after_known refresh t m peer).order ≡ peer.order
known-order true t m peer = refl
known-order false t m peer = refl

put_addresses_known :
    (refresh : Bool) (t p m old : ℕ) (ms : List ℕ) (peer : Peer)
    → find_key m peer.expires ≡ some old
    → put_addresses refresh t p (m ∷ ms) peer
      ≡ put_addresses refresh t p ms (after_known refresh t m peer)
unfolding put_addresses
put_addresses_known refresh t p m old ms peer h = rw (put_known refresh t m old peer h) refl

put_addresses_new :
    (refresh : Bool) (t p m : ℕ) (ms : List ℕ) (peer peer1 : Peer)
    → put_address refresh t m peer ≡ (true, peer1)
    → put_addresses refresh t p (m ∷ ms) peer ≡ (
      true,
      address_added p m ∷ (put_addresses refresh t p ms peer1).1,
      (put_addresses refresh t p ms peer1).2,
    )
unfolding put_addresses
put_addresses_new refresh t p m ms peer peer1 h = rw h refl

-- Adding or refreshing addresses keeps the order in step with the map: afterwards every given
-- address is there, the addresses are those from before and those told added, each once, and the
-- answer is false exactly when nothing was told.
pub put_addresses_lem :
    (refresh : Bool) (t p : ℕ) (ms : List ℕ) (peer : Peer)
    → IsValid peer
    → PutSpec ms peer (put_addresses refresh t p ms peer)
unfolding put_addresses
put_addresses_lem refresh t p [] peer v = record {
  valid = v;
  told = λ q. omega arith;
  present = tt;
  answer = (λ h. refl, λ h. refl);
}
put_addresses_lem refresh t p (m ∷ ms) peer v = elim (Option-cases (find_key m peer.expires)) [
  | inr (old, h) ↦
      let peer1 = after_known refresh t m peer in
      let r = put_addresses_lem refresh t p ms peer1 (known-IsValid refresh t m old peer v h) in
      let same = known-order refresh t m peer in
      rw (put_addresses_known refresh t p m old ms peer h) (record {
        valid = r.valid;
        told = λ q. omega (arith, r.told q, ap (count q) same);
        present = (
          omega
              (arith, r.told m, ap (count m) same, v.same m, count-find_some m old peer.expires h),
          r.present,
        );
        answer = r.answer;
      })
  | inl h ↦
      let peer1 : Peer = record {
        expires = put_key m t peer.expires;
        order = peer.order ++ m ∷ [];
      } in
      let r = put_addresses_lem refresh t p ms peer1 (new-IsValid t m peer v h) in
      rw (put_addresses_new refresh t p m ms peer peer1 (put_new refresh t m peer h)) (record {
        valid = r.valid;
        told = λ q. omega (arith, r.told q, count-append q peer.order (m ∷ []));
        present =
            (omega (arith, r.told m, count-append m peer.order (m ∷ []), one_self m), r.present);
        answer = (λ k. absurd (true_false k), λ k. absurd (cons_nil k));
      })
]
  where
    true_false : true ≡ false → ⊥
    true_false k = cc

    cons_nil : {x : Signal} {xs : List Signal} → x ∷ xs ≡ [] → ⊥
    cons_nil k = cc
