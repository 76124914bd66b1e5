-- ===== src/Protocol.antt =====
-- Package protocol: binary (de)serialization helpers.
pub mod Go
pub mod Buffer
pub mod BitSet
pub mod DWord
