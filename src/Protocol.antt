-- ===== src/Protocol.antt =====
-- The GKWP/2 wire protocol: include/gatekeeper/protocol/gkwp2/ and src/protocol/gkwp2/.
pub mod Frame
pub mod Decoder
pub mod Streams
pub mod Codec
pub mod Requests
