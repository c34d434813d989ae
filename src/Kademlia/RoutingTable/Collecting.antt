-- ===== src/Kademlia/RoutingTable/Collecting.antt =====
-- PeerRoutingTableImpl::getNearestPeers: which buckets it goes through.
use cpp_libp2p.Base.{
  ℕ, zero, suc, ◌≤◌, ◌<◌, ◌≡◌, ◌⊎◌, true, false, Option-cases, none, some, List, [], ◌++◌, arith,
  length, inl, inr, leb, if◌then◌else◌, lt_or_le,
}
use cpp_libp2p.Kademlia.NodeId.{xor_distance}
use cpp_libp2p.Kademlia.RoutingTable.{
  Bucket, PeerRoutingTable, bucket_at, get_bucket_index, distance_bit, zoom_in, collect_near,
  collect,
}
use cpp_libp2p.Kademlia.RoutingTable.Zooming.{
  Takes, Takes-none, Takes-more, Takes-then, SetUpTo, zoom_in_lem, UnsetFrom, zoom_out_lem,
}

module _ (node_of : ℕ → List ℕ) (key : List ℕ) (t : PeerRoutingTable) where
  abbrev distance_to : List ℕ
  distance_to = xor_distance t.local key

  -- The key's own bucket, and the buckets below it whose bit of the distance is set.
  abbrev pub Near : ℕ → Type 0
  Near j =
      (i : ℕ) × (get_bucket_index key t ≡ some i)
      × (1 ≤ j)
      × ((j ≡ i) ⊎ ((j < i) × (distance_bit node_of distance_to j ≡ true)))

  -- The buckets that are gone through while the peers do not suffice.
  abbrev pub Visited : ℕ → Type 0
  Visited j =
      Near j ⊎ (j ≡ 0) ⊎ ((1 ≤ j) × (j ≤ 255) × (distance_bit node_of distance_to j ≡ false))

module _ (node_of : ℕ → List ℕ) (key : List ℕ) (n : ℕ) (t : PeerRoutingTable) (q : ℕ) where
  near_none : get_bucket_index key t ≡ none → collect_near node_of key n t ≡ []
  unfolding collect_near
  near_none h = ground arith

  near_zero : get_bucket_index key t ≡ some 0 → collect_near node_of key n t ≡ []
  unfolding collect_near
  near_zero h = ground arith

  near_some :
      (i : ℕ)
      → get_bucket_index key t ≡ some (suc i)
      → collect_near node_of key n t
        ≡ zoom_in node_of i (distance_to node_of key t) n t (bucket_at (suc i) t)
  unfolding collect_near
  near_some i h = ground arith

  near_lem : Takes n t q (Near node_of key t) [] (collect_near node_of key n t)
  near_lem = elim (Option-cases (get_bucket_index key t)) [
    | inl h ↦ rw (near_none h) (
        Takes-none node_of (distance_to node_of key t) n t q (Near node_of key t) []
          (λ _ j v. nowhere h v.1))
    | inr (zero, h) ↦ rw (near_zero h) (
        Takes-none node_of (distance_to node_of key t) n t q (Near node_of key t) []
          (λ _ j v. not_zero h v.1 v.2 v.3))
    | inr (suc i, h) ↦ rw (near_some i h) (
        Takes-more node_of (distance_to node_of key t) n t q (suc i) (Near node_of key t)
          (SetUpTo node_of (distance_to node_of key t) n t q i) [] _
          (λ j v. split i j h v.1 v.2 v.3)
          (zoom_in_lem node_of (distance_to node_of key t) n t q i (bucket_at (suc i) t)))
  ]
    where
      nowhere : {i : ℕ} → get_bucket_index key t ≡ none → get_bucket_index key t ≡ some i → ⊥
      nowhere a b = cc

      same : {i j : ℕ} → get_bucket_index key t ≡ some i → get_bucket_index key t ≡ some j → i ≡ j
      same a b = cc

      not_zero :
          {i j : ℕ}
          → get_bucket_index key t ≡ some 0
          → get_bucket_index key t ≡ some i
          → 1 ≤ j
          → (j ≡ i) ⊎ ((j < i) × (distance_bit node_of (distance_to node_of key t) j ≡ true))
          → ⊥
      not_zero a b pos (inl e) = absurd (omega (arith, same a b))
      not_zero a b pos (inr v) = absurd (omega (arith, same a b, v.0))

      split :
          (i j : ℕ) {k : ℕ}
          → get_bucket_index key t ≡ some (suc i)
          → get_bucket_index key t ≡ some k
          → 1 ≤ j
          → (j ≡ k) ⊎ ((j < k) × (distance_bit node_of (distance_to node_of key t) j ≡ true))
          → (j ≡ suc i) ⊎ SetUpTo node_of (distance_to node_of key t) n t q i j
      split i j a b pos (inl e) = inl (omega (arith, same a b, e))
      split i j a b pos (inr v) = inr (pos, omega (arith, same a b, v.0), v.1)

  zero_taken :
      (b : Bucket)
      → length b < n
      → (if leb n (length b) then b else b ++ bucket_at 0 t) ≡ b ++ bucket_at 0 t
  zero_taken b h = ground arith

  zero_left : (b : Bucket) → n ≤ length b → (if leb n (length b) then b else b ++ bucket_at 0 t) ≡ b
  zero_left b h = ground arith

  zero_lem :
      (b : Bucket) → Takes n t q (λ j. j ≡ 0) b (if leb n (length b) then b else b ++ bucket_at 0 t)
  zero_lem b = elim (lt_or_le (length b) n) [
    | inl lt ↦ rw (zero_taken b lt) (
        Takes-more node_of (distance_to node_of key t) n t q 0 (λ j. j ≡ 0) (λ _. ⊥) b _
          (λ j v. inl v)
          (Takes-none node_of (distance_to node_of key t) n t q (λ _. ⊥) (b ++ bucket_at 0 t)
            (λ _ j v. v)))
    | inr full ↦ rw (zero_left b full) (
        Takes-none node_of (distance_to node_of key t) n t q (λ j. j ≡ 0) b
          (λ lt j v. absurd (omega arith)))
  ]

  pub collect_lem : Takes n t q (Visited node_of key t) [] (collect node_of key n t)
  unfolding collect
  collect_lem =
      let near = collect_near node_of key n t in
      let with_zero = (if leb n (length near) then near else near ++ bucket_at 0 t) in
      let Unset : ℕ → Type 0 = UnsetFrom node_of (distance_to node_of key t) n t q 255 1 in
      let Zero : ℕ → Type 0 = (λ j. j ≡ 0) in
      let Later : ℕ → Type 0 = (λ j. Zero j ⊎ Unset j) in
      Takes-then node_of (distance_to node_of key t) n t q (Near node_of key t) Later
        (Visited node_of key t) [] near _
        (λ j v. elim v [
          | inl a ↦ inl a
          | inr r ↦ inr (elim r [ inl z ↦ inl z | inr u ↦ inr (u.0, omega (arith, u.1), u.2) ])
        ])
        near_lem
        (Takes-then node_of (distance_to node_of key t) n t q Zero Unset Later near with_zero _
          (λ j v. v) (zero_lem near)
          (zoom_out_lem node_of (distance_to node_of key t) n t q 255 1 with_zero))
