-- ===== src/Kademlia/RoutingTable/Zooming.antt =====
-- PeerRoutingTableImpl::getNearestPeers: its two loops over the buckets.
use cpp_libp2p.Base.{
  ℕ, zero, suc, ◌+◌, ◌≤◌, ◌<◌, ◌≡◌, ◌⊎◌, refl, ap, Bool, true, false, Bool-cases, List, [], ◌∷◌,
  ◌++◌, arith, length, length-append, count, count-append, inl, inr, get_or, zero_cases, lt_or_le,
}
use cpp_libp2p.Kademlia.RoutingTable.{
  Bucket, PeerRoutingTable, peer_ids, bucket_at, get_all_peers, distance_bit, zoom_in, zoom_out,
}

abbrev pub in_bucket : ℕ → Bucket → ℕ
in_bucket q b = count q (peer_ids b)

in_bucket-append : (q : ℕ) (a b : Bucket) → in_bucket q (a ++ b) ≡ in_bucket q a + in_bucket q b
unfolding peer_ids
in_bucket-append q [] b = omega arith
in_bucket-append q (x ∷ xs) b = omega (arith, in_bucket-append q xs b)

at_le : (q i : ℕ) (bs : List Bucket) → in_bucket q (get_or bs i []) ≤ count q (get_all_peers bs)
unfolding peer_ids
at_le q i [] = omega arith
at_le q zero (b ∷ bs) = omega (arith, count-append q (peer_ids b) (get_all_peers bs))
at_le q (suc i) (b ∷ bs) =
    omega (arith, at_le q i bs, count-append q (peer_ids b) (get_all_peers bs))

-- From the peers `b` to the peers `r`: nobody is lost, whoever comes is in the table, and unless `n`
-- peers are found the buckets of `visited` are taken whole.
pub record Takes (n : ℕ) (t : PeerRoutingTable) (q : ℕ) (visited : ℕ → Type 0) (b r : Bucket)
    : Type 0 where
  pub kept : in_bucket q b ≤ in_bucket q r
  pub longer : length b ≤ length r
  pub known : 1 ≤ in_bucket q r → (1 ≤ in_bucket q b) ⊎ (1 ≤ count q (get_all_peers t.buckets))
  pub whole : length r < n → (j : ℕ) → visited j → in_bucket q (bucket_at j t) ≤ in_bucket q r

module _ (node_of : ℕ → List ℕ) (distance : List ℕ) (n : ℕ) (t : PeerRoutingTable) (q : ℕ) where
  pub Takes-none :
      (visited : ℕ → Type 0) (b : Bucket)
      → (length b < n → (j : ℕ) → visited j → ⊥)
      → Takes n t q visited b b
  Takes-none visited b h = record {
    kept = omega arith;
    longer = omega arith;
    known = λ k. inl k;
    whole = λ lt j v. absurd (h lt j v);
  }

  -- A bucket is taken, and then others.
  pub Takes-more :
      (i : ℕ) (visited visited' : ℕ → Type 0) (b r : Bucket)
      → ((j : ℕ) → visited j → (j ≡ i) ⊎ visited' j)
      → Takes n t q visited' (b ++ bucket_at i t) r
      → Takes n t q visited b r
  Takes-more i visited visited' b r h k =
      let e = in_bucket-append q b (bucket_at i t) in
      record {
        kept = omega (arith, e, k.kept);
        longer = omega (arith, k.longer, length-append b (bucket_at i t));
        known = λ one. elim (k.known one) [
          | inr a ↦ inr a
          | inl a ↦ elim (zero_cases (in_bucket q b)) [
            | inr pos ↦ inl (omega arith)
            | inl z ↦ inr (omega (arith, a, z, e, at_le q i t.buckets))
          ]
        ];
        whole = λ lt j v. elim (h j v) [
          | inl same ↦ omega (arith, e, k.kept, ap (λ x. in_bucket q (bucket_at x t)) same)
          | inr v' ↦ k.whole lt j v'
        ];
      }

  Takes-other :
      (visited visited' : ℕ → Type 0) (b r : Bucket)
      → ((j : ℕ) → visited j → visited' j)
      → Takes n t q visited' b r
      → Takes n t q visited b r
  Takes-other visited visited' b r h k = record {
    kept = k.kept;
    longer = k.longer;
    known = k.known;
    whole = λ lt j v. k.whole lt j (h j v);
  }

  in_full : (i : ℕ) (b : Bucket) → n ≤ length b → zoom_in node_of (suc i) distance n t b ≡ b
  unfolding zoom_in
  in_full i b h = ground arith

  in_set :
      (i : ℕ) (b : Bucket)
      → length b < n
      → distance_bit node_of distance (suc i) ≡ true
      → zoom_in node_of (suc i) distance n t b
        ≡ zoom_in node_of i distance n t (b ++ bucket_at (suc i) t)
  unfolding zoom_in
  in_set i b h k = ground arith

  in_unset :
      (i : ℕ) (b : Bucket)
      → length b < n
      → distance_bit node_of distance (suc i) ≡ false
      → zoom_in node_of (suc i) distance n t b ≡ zoom_in node_of i distance n t b
  unfolding zoom_in
  in_unset i b h k = ground arith

  in_none : (b : Bucket) → zoom_in node_of zero distance n t b ≡ b
  unfolding zoom_in
  in_none b = refl

  -- The buckets from 1 to `i` whose bit is set.
  abbrev pub SetUpTo : ℕ → ℕ → Type 0
  SetUpTo i j = (1 ≤ j) × (j ≤ i) × (distance_bit node_of distance j ≡ true)

  pub zoom_in_lem :
      (i : ℕ) (b : Bucket) → Takes n t q (SetUpTo i) b (zoom_in node_of i distance n t b)
  zoom_in_lem zero b =
      rw (in_none b) (Takes-none (SetUpTo zero) b (λ _ j v. absurd (omega (arith, v.0, v.1))))
  zoom_in_lem (suc i) b = elim (lt_or_le (length b) n) [
    | inr full ↦
        rw (in_full i b full) (Takes-none (SetUpTo (suc i)) b (λ lt j v. absurd (omega arith)))
    | inl lt ↦ elim (Bool-cases (distance_bit node_of distance (suc i))) [
      | inl y ↦ rw (in_set i b lt y) (
          Takes-more (suc i) (SetUpTo (suc i)) (SetUpTo i) b _ (λ j v. last i j v)
            (zoom_in_lem i (b ++ bucket_at (suc i) t)))
      | inr u ↦ rw (in_unset i b lt u) (
          Takes-other (SetUpTo (suc i)) (SetUpTo i) b _
            (λ j v. elim (last i j v) [
              | inl e ↦ absurd (differ (ap (distance_bit node_of distance) e) u v.2)
              | inr v' ↦ v'
            ])
            (zoom_in_lem i b))
    ]
  ]
    where
      last : (i j : ℕ) → SetUpTo (suc i) j → (j ≡ suc i) ⊎ SetUpTo i j
      last i j v = elim (lt_or_le i j) [
        | inl lt ↦ inl (omega (arith, v.1))
        | inr le ↦ inr (v.0, le, v.2)
      ]

      differ : {a b : Bool} → a ≡ b → b ≡ false → a ≡ true → ⊥
      differ e u y = cc

  pub Takes-then :
      (v1 v2 visited : ℕ → Type 0) (a b r : Bucket)
      → ((j : ℕ) → visited j → v1 j ⊎ v2 j)
      → Takes n t q v1 a b
      → Takes n t q v2 b r
      → Takes n t q visited a r
  Takes-then v1 v2 visited a b r h k1 k2 = record {
    kept = omega (arith, k1.kept, k2.kept);
    longer = omega (arith, k1.longer, k2.longer);
    known = λ one. elim (k2.known one) [ inl x ↦ k1.known x | inr x ↦ inr x ];
    whole = λ lt j v. elim (h j v) [
      | inl x ↦ omega (arith, k1.whole (omega (arith, k2.longer)) j x, k2.kept)
      | inr x ↦ k2.whole lt j x
    ];
  }

  out_full : (m i : ℕ) (b : Bucket) → n ≤ length b → zoom_out node_of (suc m) i distance n t b ≡ b
  unfolding zoom_out
  out_full m i b h = ground arith

  out_unset :
      (m i : ℕ) (b : Bucket)
      → length b < n
      → distance_bit node_of distance i ≡ false
      → zoom_out node_of (suc m) i distance n t b
        ≡ zoom_out node_of m (suc i) distance n t (b ++ bucket_at i t)
  unfolding zoom_out
  out_unset m i b h k = ground arith

  out_set :
      (m i : ℕ) (b : Bucket)
      → length b < n
      → distance_bit node_of distance i ≡ true
      → zoom_out node_of (suc m) i distance n t b ≡ zoom_out node_of m (suc i) distance n t b
  unfolding zoom_out
  out_set m i b h k = ground arith

  out_none : (i : ℕ) (b : Bucket) → zoom_out node_of zero i distance n t b ≡ b
  unfolding zoom_out
  out_none i b = refl

  -- The `m` buckets from `i` on whose bit is not set.
  abbrev pub UnsetFrom : ℕ → ℕ → ℕ → Type 0
  UnsetFrom m i j = (i ≤ j) × (j < i + m) × (distance_bit node_of distance j ≡ false)

  pub zoom_out_lem :
      (m i : ℕ) (b : Bucket) → Takes n t q (UnsetFrom m i) b (zoom_out node_of m i distance n t b)
  zoom_out_lem zero i b =
      rw (out_none i b)
        (Takes-none (UnsetFrom zero i) b (λ _ j v. absurd (omega (arith, v.0, v.1))))
  zoom_out_lem (suc m) i b = elim (lt_or_le (length b) n) [
    | inr full ↦
        rw (out_full m i b full)
          (Takes-none (UnsetFrom (suc m) i) b (λ lt j v. absurd (omega arith)))
    | inl lt ↦ elim (Bool-cases (distance_bit node_of distance i)) [
      | inr u ↦ rw (out_unset m i b lt u) (
          Takes-more i (UnsetFrom (suc m) i) (UnsetFrom m (suc i)) b _ (λ j v. first m i j v)
            (zoom_out_lem m (suc i) (b ++ bucket_at i t)))
      | inl y ↦ rw (out_set m i b lt y) (
          Takes-other (UnsetFrom (suc m) i) (UnsetFrom m (suc i)) b _
            (λ j v. elim (first m i j v) [
              | inl e ↦ absurd (differ (ap (distance_bit node_of distance) e) y v.2)
              | inr v' ↦ v'
            ])
            (zoom_out_lem m (suc i) b))
    ]
  ]
    where
      first : (m i j : ℕ) → UnsetFrom (suc m) i j → (j ≡ i) ⊎ UnsetFrom m (suc i) j
      first m i j v = elim (lt_or_le i j) [
        | inl lt ↦ inr (omega arith, omega (arith, v.1), v.2)
        | inr le ↦ inl (omega (arith, v.0))
      ]

      differ : {a b : Bool} → a ≡ b → b ≡ true → a ≡ false → ⊥
      differ e u y = cc
