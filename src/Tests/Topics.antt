-- ===== src/Tests/Topics.antt =====
-- The peers of a topic.
use cpp_libp2p.Base.{
  ℕ, suc, zero, ◌≡◌, ◌≤◌, refl, true, some, List, [], ◌∷◌, arith, count, take, length-take, one_le,
  find_key, put_key, contains_key, one,
}
use cpp_libp2p.Gossip.PeerSet
use cpp_libp2p.Gossip.PeerSet.{IsSample}
use cpp_libp2p.Gossip.TopicSubscriptions.{
  Config, TopicSubscriptions, TopicEvent, new_topic, handle, handle_all, on_prune, on_heartbeat,
  update_mesh, graft_all, graft_one, on_graft, accept_graft, on_self_subscribed, shift_cache,
  drop_expired,
}
use cpp_libp2p.Gossip.TopicSubscriptions.Valid
use cpp_libp2p.Gossip.TopicSubscriptions.Mesh

abbrev config : Config
config = record { d_min = 2; d_max = 3; seen_cache_limit = 10; seen_cache_lifetime_msec = 100 }

-- The sampling that takes the first peers.
count-take : (n : ℕ) (ps : List ℕ) (q : ℕ) → count q (take n ps) ≤ count q ps
count-take zero ps q = omega arith
count-take (suc n) [] q = omega arith
count-take (suc n) (p ∷ ps) q = omega (arith, count-take n ps q)

take-IsSample : IsSample take
take-IsSample = record { from = count-take; size = λ n ps. omega (arith, length-take n ps) }

one_peer_once : (q : ℕ) → count q (1 ∷ []) ≤ 1
one_peer_once q = omega (arith, one_le q 1)

-- The host subscribes, and the peer 1 is grafted and prunes the host twice.
abbrev events : List TopicEvent
events =
    TopicEvent.self_subscribes true
    ∷ TopicEvent.heartbeat 10
    ∷ TopicEvent.prune 1 60
    ∷ TopicEvent.graft 1
    ∷ TopicEvent.prune 1 130
    ∷ []

handle_all-IsValid_example : Valid.IsValid 3 (handle_all config take events (new_topic (1 ∷ [])))
handle_all-IsValid_example =
    Mesh.handle_all-IsValid config take events (new_topic (1 ∷ [])) take-IsSample (omega arith)
      (Valid.new_topic-IsValid 3 (1 ∷ []) one_peer_once)

-- The second time until which the peer is not to be bothered is lost, and at 70 it is in the mesh.
abbrev pruned_twice : TopicSubscriptions
pruned_twice = handle_all config take events (new_topic (1 ∷ []))

second_backoff_lost :
    (find_key 1 pruned_twice.dont_bother_until ≡ some 60)
    × ((on_heartbeat config take 70 pruned_twice).1.mesh_peers ≡ 1 ∷ [])
unfolding handle_all handle on_prune on_heartbeat update_mesh graft_all graft_one on_graft
    accept_graft on_self_subscribed shift_cache drop_expired PeerSet.contains PeerSet.insert
    PeerSet.select_random_peers find_key one contains_key put_key
second_backoff_lost = (refl, refl)
