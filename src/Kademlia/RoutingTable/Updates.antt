-- ===== src/Kademlia/RoutingTable/Updates.antt =====
-- PeerRoutingTableImpl::update and remove: what a bucket keeps.
use cpp_libp2p.Base.{
  ℕ, ◌+◌, ◌≤◌, ◌<◌, ◌≡◌, ◌==◌, refl, ap, subst, Bool, true, false, not, Bool-cases, Option-cases,
  none, some, List, [], ◌∷◌, arith, length, one, one_self, count, inl, inr, lt_or_le, ◌⊎◌,
}
use cpp_libp2p.Kademlia.RoutingTable.{
  Bucket, BucketPeerInfo, TableEvent, UpdateResult, peer_added, peer_removed, updated,
  peer_rejected_no_capacity, contains, take_peer, move_to_front, emplace_to_front,
  remove_replaceable_item, remove_peer, peer_ids, replace_peer, update_bucket,
}
use cpp_libp2p.Kademlia.RoutingTable.Buckets.{
  IsValid, Without, TakeSpec, take_lem, contains_none, contains_some, RemoveSpec, removed_lem,
}

abbrev pub added : List TableEvent → List ℕ
added [] = []
added (peer_added p ∷ es) = p ∷ added es
added (peer_removed p ∷ es) = added es

abbrev pub removed : List TableEvent → List ℕ
removed [] = []
removed (peer_added p ∷ es) = removed es
removed (peer_removed p ∷ es) = p ∷ removed es

pub record UpdateSpec (n p : ℕ) (b : Bucket) (r : UpdateResult × List TableEvent × Bucket)
    : Type 0 where
  pub valid : IsValid n r.2
  pub balance :
      (q : ℕ)
      → count q (peer_ids r.2) + count q (removed r.1) ≡ count q (peer_ids b) + count q (added r.1)
  pub present : (x : Bool) → r.0 ≡ updated x → count p (peer_ids r.2) ≡ 1
  pub rejected : r.0 ≡ peer_rejected_no_capacity → (r.2 ≡ b) × (r.1 ≡ [])

-- The peer is not in the bucket, by the test that the code makes.
abbrev Absent : ℕ → Bool → Bucket → Type 0
Absent p conn b =
    ((conn ≡ true) × (take_peer p b ≡ none)) ⊎ ((conn ≡ false) × (contains p b ≡ false))

update_moved :
    (n p : ℕ) (perm : Bool) (b : Bucket) (i : BucketPeerInfo) (c : Bucket)
    → take_peer p b ≡ some (i, c)
    → update_bucket n p perm true b ≡ (updated false, [], record i { is_connected = true } ∷ c)
unfolding update_bucket move_to_front
update_moved n p perm b i c h = rw (h, move_to_front) refl

update_kept :
    (n p : ℕ) (perm : Bool) (b : Bucket)
    → contains p b ≡ true
    → update_bucket n p perm false b ≡ (updated false, [], b)
unfolding update_bucket
update_kept n p perm b h = ground arith

update_added :
    (n p : ℕ) (perm conn : Bool) (b : Bucket)
    → Absent p conn b
    → length b < n
    → update_bucket n p perm conn b
      ≡ (updated true, peer_added p ∷ [], emplace_to_front p (not perm) conn b)
unfolding update_bucket move_to_front
update_added n p perm conn b h lt = ground arith

update_replaced :
    (n p : ℕ) (perm conn : Bool) (b : Bucket)
    → Absent p conn b
    → n ≤ length b
    → update_bucket n p perm conn b ≡ replace_peer p (not perm) conn b
unfolding update_bucket move_to_front
update_replaced n p perm conn b h le = ground arith

replace_none :
    (p : ℕ) (rep conn : Bool) (b : Bucket)
    → remove_replaceable_item b ≡ none
    → replace_peer p rep conn b ≡ (peer_rejected_no_capacity, [], b)
unfolding replace_peer
replace_none p rep conn b h = ground arith

replace_some :
    (p : ℕ) (rep conn : Bool) (b : Bucket) (r : ℕ × Bucket)
    → remove_replaceable_item b ≡ some r
    → replace_peer p rep conn b
      ≡ (updated true, peer_removed r.0 ∷ peer_added p ∷ [], emplace_to_front p rep conn r.1)
unfolding replace_peer
replace_some p rep conn b r h = ground arith

Absent-count : (p : ℕ) (conn : Bool) (b : Bucket) → Absent p conn b → count p (peer_ids b) ≡ 0
Absent-count p conn b (inl (c, h)) = subst (TakeSpec p b) h (take_lem p b)
Absent-count p conn b (inr (c, h)) = contains_none p b h

-- A new peer at the front of a bucket that does not hold it.
unique_cons :
    (p : ℕ) (c : Bucket)
    → count p (peer_ids c) ≡ 0
    → ((q : ℕ) → count q (peer_ids c) ≤ 1)
    → (q : ℕ) → one q p + count q (peer_ids c) ≤ 1
unfolding one
unique_cons p c z u q = elim (Bool-cases (q == p)) [
  | inl h ↦
      let e : q ≡ p = ground arith in rw h (omega (arith, z, ap (λ k. count k (peer_ids c)) e))
  | inr h ↦ rw h (omega (arith, u q))
]

moved_lem :
    (n p : ℕ) (b c : Bucket) (i : BucketPeerInfo)
    → IsValid n b
    → i.peer_id ≡ p
    → Without p b c
    → UpdateSpec n p b (updated false, [], record i { is_connected = true } ∷ c)
unfolding peer_ids
moved_lem n p b c i v e w = record {
  valid = record {
    size = omega (arith, v.size, w.size);
    unique = λ q. omega (arith, v.unique q, w.ids q, ap (one q) e);
  };
  balance = λ q. omega (arith, w.ids q, ap (one q) e);
  present = λ x h. omega (arith, v.unique p, w.ids p, ap (one p) e, one_self p);
  rejected = λ h. cc;
}

added_lem :
    (n p : ℕ) (rep conn : Bool) (b : Bucket)
    → IsValid n b
    → count p (peer_ids b) ≡ 0
    → length b < n
    → UpdateSpec n p b (updated true, peer_added p ∷ [], emplace_to_front p rep conn b)
unfolding peer_ids
added_lem n p rep conn b v z lt = record {
  valid = record { size = lt; unique = unique_cons p b z v.unique };
  balance = λ q. omega arith;
  present = λ x h. omega (arith, one_self p);
  rejected = λ h. cc;
}

replaced_lem :
    (n p : ℕ) (rep conn : Bool) (b : Bucket) (r : ℕ × Bucket)
    → IsValid n b
    → count p (peer_ids b) ≡ 0
    → Without r.0 b r.1
    → UpdateSpec n p b
        (updated true, peer_removed r.0 ∷ peer_added p ∷ [], emplace_to_front p rep conn r.1)
unfolding peer_ids
replaced_lem n p rep conn b r v z w = record {
  valid = record {
    size = omega (arith, v.size, w.size);
    unique = unique_cons p r.1 (omega (arith, w.ids p)) (λ q. omega (arith, v.unique q, w.ids q));
  };
  balance = λ q. omega (arith, w.ids q);
  present = λ x h. omega (arith, one_self p, w.ids p);
  rejected = λ h. cc;
}

-- A peer that is in the bucket already.
found_lem :
    (n p : ℕ) (b : Bucket) (perm : Bool)
    → IsValid n b
    → contains p b ≡ true
    → UpdateSpec n p b (update_bucket n p perm false b)
found_lem n p b perm v h = rw (update_kept n p perm b h) (record {
  valid = v;
  balance = λ q. refl;
  present = λ x k. omega (arith, v.unique p, contains_some p b h);
  rejected = λ k. cc;
})

-- A peer that is not in the bucket.
absent_lem :
    (n p : ℕ) (b : Bucket) (perm conn : Bool)
    → IsValid n b
    → Absent p conn b
    → UpdateSpec n p b (update_bucket n p perm conn b)
absent_lem n p b perm conn v h =
    let z = Absent-count p conn b h in
    elim (lt_or_le (length b) n) [
      | inl lt ↦ rw (update_added n p perm conn b h lt) (added_lem n p (not perm) conn b v z lt)
      | inr le ↦
          rw (update_replaced n p perm conn b h le)
            (elim (Option-cases (remove_replaceable_item b)) [
              | inl e ↦ rw (replace_none p (not perm) conn b e) (record {
                valid = v;
                balance = λ q. refl;
                present = λ x k. cc;
                rejected = λ k. (refl, refl);
              })
              | inr (r, e) ↦ rw (replace_some p (not perm) conn b r e) (
                  replaced_lem n p (not perm) conn b r v z (subst (RemoveSpec b) e (removed_lem b)))
            ])
    ]

-- `update` keeps a bucket within its size and free of duplicates, and the events that it publishes
-- are exactly what changed: the peers after it and those told removed are the peers before it and
-- those told added. Unless the peer is rejected for want of room it is in the bucket afterwards,
-- once; when it is rejected nothing changes.
pub update_bucket_lem :
    (n p : ℕ) (perm conn : Bool) (b : Bucket)
    → IsValid n b
    → UpdateSpec n p b (update_bucket n p perm conn b)
update_bucket_lem n p perm true b v = elim (Option-cases (take_peer p b)) [
  | inl e ↦ absent_lem n p b perm true v (inl (refl, e))
  | inr ((i, c), e) ↦
      let t : TakeSpec p b (some (i, c)) = subst (TakeSpec p b) e (take_lem p b) in
      rw (update_moved n p perm b i c e) (moved_lem n p b c i v t.0 t.1)
]
update_bucket_lem n p perm false b v = elim (Bool-cases (contains p b)) [
  | inl h ↦ found_lem n p b perm v h
  | inr h ↦ absent_lem n p b perm false v (inr (refl, h))
]

remove_none : (p : ℕ) (b : Bucket) → take_peer p b ≡ none → remove_peer p b ≡ (false, b)
unfolding remove_peer
remove_none p b h = ground arith

remove_some :
    (p : ℕ) (b : Bucket) (r : BucketPeerInfo × Bucket)
    → take_peer p b ≡ some r
    → remove_peer p b ≡ (true, r.1)
unfolding remove_peer
remove_some p b r h = ground arith

-- `remove` leaves a bucket without the peer, keeps its size and its freedom from duplicates, and
-- touches no other peer.
pub remove_peer_lem :
    (n p : ℕ) (b : Bucket)
    → IsValid n b
    → IsValid n (remove_peer p b).1
      × (count p (peer_ids (remove_peer p b).1) ≡ 0)
      × ((q : ℕ) → one q p ≡ 0 → count q (peer_ids (remove_peer p b).1) ≡ count q (peer_ids b))
remove_peer_lem n p b v = elim (Option-cases (take_peer p b)) [
  | inl e ↦ rw (remove_none p b e) (v, subst (TakeSpec p b) e (take_lem p b), λ q h. refl)
  | inr (r, e) ↦
      let t : TakeSpec p b (some r) = subst (TakeSpec p b) e (take_lem p b) in
      let w = t.1 in
      rw (remove_some p b r e) (
        record {
          size = omega (arith, v.size, w.size);
          unique = λ q. omega (arith, v.unique q, w.ids q);
        },
        omega (arith, v.unique p, w.ids p, one_self p),
        λ q h. omega (arith, w.ids q),
      )
]
