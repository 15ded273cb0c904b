-- ===== src/Proto.antt =====
-- The shared wire types, proto/src: the envelopes, the payloads, and the encoding they travel in.
pub mod Rpc
pub mod Methods
pub mod Wire
