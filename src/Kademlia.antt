-- ===== src/Kademlia.antt =====
-- The Kademlia protocol, src/protocol/kademlia: identities of nodes, and the routing table.
pub mod NodeId
pub mod RoutingTable
