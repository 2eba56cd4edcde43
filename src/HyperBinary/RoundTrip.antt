-- ===== src/HyperBinary/RoundTrip.antt =====
-- The decoder of crates/hyper-binary reads back what its encoder writes.
pub mod Reads
pub mod Lines
pub mod Flat
pub mod Body
pub mod Response
pub mod Request
