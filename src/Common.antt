-- ===== src/Common.antt =====
-- The helpers under src/common.
pub mod Byteutil
