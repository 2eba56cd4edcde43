-- ===== src/OhttpHpke.antt =====
-- crates/ohttp-hpke: oblivious HTTP (RFC 9458) over HPKE.
pub mod Config
pub mod Header
pub mod Nonce
pub mod Aead
pub mod Response
pub mod Encapsulated
pub mod Decapsulated
pub mod Keys
pub mod Slice
pub mod ClientConfig
pub mod ServerConfig
pub mod ConfigRoundTrip
pub mod Hpke
pub mod Client
pub mod Server
pub mod RoundTrip
