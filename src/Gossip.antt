-- ===== src/Gossip.antt =====
-- The gossip protocol under src/protocol/gossip.
pub mod PeerSet
pub mod TopicSubscriptions
