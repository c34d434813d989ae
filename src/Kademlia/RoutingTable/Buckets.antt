-- ===== src/Kademlia/RoutingTable/Buckets.antt =====
-- Bucket: what leaves it when a peer is taken out or replaced.
use cpp_libp2p.Base.{
  ℕ, suc, ◌+◌, ◌≤◌, ◌<◌, ◌≡◌, ◌==◌, ◌&&◌, if◌then◌else◌, refl, ap, true, false, not, Bool-cases,
  Option, none, some, [], ◌∷◌, arith, length, one, count, inl, inr,
}
use cpp_libp2p.Kademlia.RoutingTable.{
  Bucket, BucketPeerInfo, contains, take_peer, remove_replaceable_item, peer_ids,
}

-- A bucket holds at most `n` peers, none of them twice.
pub record IsValid (n : ℕ) (b : Bucket) : Type 0 where
  pub size : length b ≤ n
  pub unique : (q : ℕ) → count q (peer_ids b) ≤ 1

-- What leaves the bucket `b` when the peer with id `p` is taken out.
pub record Without (p : ℕ) (b c : Bucket) : Type 0 where
  pub size : length b ≡ suc (length c)
  pub ids : (q : ℕ) → count q (peer_ids b) ≡ one q p + count q (peer_ids c)

abbrev pub TakeSpec : ℕ → Bucket → Option (BucketPeerInfo × Bucket) → Type 0
TakeSpec p b none = count p (peer_ids b) ≡ 0
TakeSpec p b (some r) = (r.0.peer_id ≡ p) × Without p b r.1

take_here : (p : ℕ) (j : BucketPeerInfo) (js : Bucket) → j.peer_id ≡ p → Without p (j ∷ js) js
unfolding peer_ids
take_here p j js e = record { size = refl; ids = λ q. ap (λ k. one q k + count q (peer_ids js)) e }

Without-cons :
    (p : ℕ) (j : BucketPeerInfo) (b c : Bucket) → Without p b c → Without p (j ∷ b) (j ∷ c)
unfolding peer_ids
Without-cons p j b c h = record { size = omega (arith, h.size); ids = λ q. omega (arith, h.ids q) }

take_later :
    (p : ℕ) (j : BucketPeerInfo) (js : Bucket) (r : Option (BucketPeerInfo × Bucket))
    → (j.peer_id == p) ≡ false
    → TakeSpec p js r
    → TakeSpec p (j ∷ js) (elim r [ none ↦ none | some t ↦ some (t.0, j ∷ t.1) ])
unfolding peer_ids one
take_later p j js none e h = ground arith
take_later p j js (some t) e h = (h.0, Without-cons p j js t.1 h.1)

pub take_lem : (p : ℕ) (b : Bucket) → TakeSpec p b (take_peer p b)
unfolding take_peer peer_ids
take_lem p [] = refl
take_lem p (j ∷ js) = elim (Bool-cases (j.peer_id == p)) [
  | inl e ↦ let same_id : j.peer_id ≡ p = ground arith in rw e (same_id, take_here p j js same_id)
  | inr e ↦ rw e (take_later p j js (take_peer p js) e (take_lem p js))
]

pub contains_none : (p : ℕ) (b : Bucket) → contains p b ≡ false → count p (peer_ids b) ≡ 0
unfolding contains peer_ids one
contains_none p [] h = refl
contains_none p (i ∷ is') h = ground (arith, contains_none p is')

pub contains_some : (p : ℕ) (b : Bucket) → contains p b ≡ true → 0 < count p (peer_ids b)
unfolding contains peer_ids one
contains_some p [] h = cc
contains_some p (i ∷ is') h = ground (arith, contains_some p is')

abbrev pub RemoveSpec : Bucket → Option (ℕ × Bucket) → Type 0
RemoveSpec b none = Unit {0}
RemoveSpec b (some r) = Without r.0 b r.1

remove_later :
    (i : BucketPeerInfo) (b : Bucket) (r : Option (ℕ × Bucket))
    → RemoveSpec b r
    → RemoveSpec (i ∷ b) (elim r [
      | some t ↦ some (t.0, i ∷ t.1)
      | none ↦ if i.is_replaceable && not i.is_connected then some (i.peer_id, b) else none
    ])
remove_later i b (some t) h = Without-cons t.0 i b t.1 h
remove_later i b none h = elim (Bool-cases (i.is_replaceable && not i.is_connected)) [
  | inl e ↦ rw e (take_here i.peer_id i b refl)
  | inr e ↦ rw e tt
]

pub removed_lem : (b : Bucket) → RemoveSpec b (remove_replaceable_item b)
unfolding remove_replaceable_item
removed_lem [] = tt
removed_lem (i ∷ is') = remove_later i is' (remove_replaceable_item is') (removed_lem is')
