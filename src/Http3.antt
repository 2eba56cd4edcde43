-- ===== src/Http3.antt =====
-- src/client/http3: the HTTP/3 client of pvcli, between hyper and the QUIC driver.
pub mod HashMap
pub mod Body
pub mod SendBody
pub mod Connection
