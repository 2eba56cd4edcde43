-- ===== src/HyperBinary/RoundTrip/Flat.antt =====
-- The flat decoder on what the encoder writes.
pub mod Section
pub mod Messages
