-- ===== src/ProtocolMuxer.antt =====
-- The negotiation of protocols under src/protocol_muxer and include/libp2p/protocol_muxer.
pub mod Multiselect
