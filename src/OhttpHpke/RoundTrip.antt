-- ===== src/OhttpHpke/RoundTrip.antt =====
-- Both sides of crates/ohttp-hpke: what one seals, the other opens.
pub mod Openers
pub mod Chunked
pub mod Response
pub mod Flat
pub mod Request
