-- ===== src/Basic.antt =====
-- The byte containers under src/basic and include/libp2p/basic.
pub mod WriteQueue
pub mod ReadBuffer
pub mod Scheduler
pub mod VarintPrefixReader
pub mod Collector
