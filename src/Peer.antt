-- ===== src/Peer.antt =====
-- What is known of peers, src/peer.
pub mod AddressRepository
