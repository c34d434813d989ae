-- ===== src/Multi.antt =====
-- The self-describing formats under src/multi.
pub mod Uvarint
