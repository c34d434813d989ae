-- ===== src/Kademlia/RoutingTable/Nearest.antt =====
-- PeerRoutingTableImpl::getNearestPeers: which peers it gives, and in which order.
use cpp_libp2p.Base.{ℕ, ◌≤◌, ◌≡◌, false, List, [], ◌∷◌, length, count, ◌<◌, ◌++◌}
use cpp_libp2p.Kademlia.NodeId.{bytes_less, xor_distance}
use cpp_libp2p.Kademlia.RoutingTable.{PeerRoutingTable, peer_ids, collect, get_all_peers, bucket_at}
use cpp_libp2p.Kademlia.RoutingTable.Collecting.{Visited}

module _ (node_of : ℕ → List ℕ) (from : List ℕ) where
  abbrev pub distance_of : ℕ → List ℕ
  distance_of p = xor_distance (node_of p) from

  -- The next peer, when there is one, is not nearer than `p`.
  abbrev pub Follows : ℕ → List ℕ → Type 0
  Follows p [] = Unit {0}
  Follows p (q ∷ qs) = bytes_less (distance_of q) (distance_of p) ≡ false

  -- No peer is nearer than the one before it.
  abbrev pub Ascending : List ℕ → Type 0
  Ascending [] = Unit {0}
  Ascending (p ∷ ps) = Follows p ps × Ascending ps

  -- Of the peers that are given for a key: `left` are those considered and not given.
  pub record NearestSpec (n : ℕ) (t : PeerRoutingTable) (given : List ℕ) : Type 0 where
    pub left : List ℕ
    pub ascending : Ascending (given ++ left)
    pub at_most : length given ≤ n
    pub enough : 0 < length left → length given ≡ n
    pub considered :
        (q : ℕ) → count q (given ++ left) ≡ count q (peer_ids (collect node_of from n t))
    pub known : (q : ℕ) → 1 ≤ count q (given ++ left) → 1 ≤ count q (get_all_peers t.buckets)
    pub all_visited :
        length given < n
        → (j : ℕ) → Visited node_of from t j
        → (q : ℕ) → count q (peer_ids (bucket_at j t)) ≤ count q given
