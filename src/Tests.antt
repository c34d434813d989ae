-- ===== src/Tests.antt =====
-- Runs of the definitions at concrete inputs, and the theorems at inputs that meet their hypotheses.
pub mod Buffers
pub mod Formats
pub mod Frames
pub mod Streams
pub mod Connections
pub mod Peers
pub mod Addresses
pub mod Schedulers
pub mod Negotiations
pub mod Topics
