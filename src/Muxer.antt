-- ===== src/Muxer.antt =====
-- The stream multiplexers under src/muxer.
pub mod Yamux
