-- ===== src/Tests/Peers.antt =====
-- The routing table of Kademlia.
use cpp_libp2p.Base.{ℕ, ◌≡◌, refl, true, false, List, [], ◌∷◌, arith, one, count}
use cpp_libp2p.Kademlia.NodeId.{leading_zeros_in_byte, leading_zeros}
use cpp_libp2p.Kademlia.RoutingTable.{
  Bucket, PeerRoutingTable, update_bucket, remove_peer, peer_ids,
}
use cpp_libp2p.Kademlia.RoutingTable.Updates
use cpp_libp2p.Kademlia.RoutingTable.Buckets
use cpp_libp2p.Kademlia.RoutingTable.Nearest

empty-IsValid : Buckets.IsValid 1 []
unfolding peer_ids
empty-IsValid = record { size = omega arith; unique = λ q. omega arith }

-- A full bucket of one connected peer.
abbrev full : Bucket
full = (update_bucket 1 7 false true []).2

full-IsValid : Buckets.IsValid 1 full
full-IsValid = (Updates.update_bucket_lem 1 7 false true [] empty-IsValid).valid

update_bucket_lem_example : Updates.UpdateSpec 1 8 full (update_bucket 1 8 false true full)
update_bucket_lem_example = Updates.update_bucket_lem 1 8 false true full full-IsValid

remove_peer_lem_example :
    Buckets.IsValid 1 (remove_peer 7 full).1
    × (count 7 (peer_ids (remove_peer 7 full).1) ≡ 0)
    × ((q : ℕ) → one q 7 ≡ 0 → count q (peer_ids (remove_peer 7 full).1) ≡ count q (peer_ids full))
remove_peer_lem_example = Updates.remove_peer_lem 1 7 full full-IsValid

byte_zeros : leading_zeros_in_byte 16 ≡ 3
unfolding leading_zeros
byte_zeros = refl

-- An identity of one byte stands for the hash.
abbrev one_byte : ℕ → List ℕ
one_byte p = p ∷ []

abbrev two_peers : Bucket
two_peers = (update_bucket 2 4 false true full).2

abbrev table : PeerRoutingTable
table = record { max_bucket_size = 2; local = 0 ∷ []; buckets = two_peers ∷ [] }
