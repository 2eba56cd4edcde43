-- ===== src/HyperBinary.antt =====
-- crates/hyper-binary: binary HTTP messages (RFC 9292).
pub mod Decoder
pub mod Body
pub mod Encoder
pub mod RoundTrip
