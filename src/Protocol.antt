-- ===== src/Protocol.antt =====
-- The wire protocol: frames, message types and payloads.
pub mod MessageTypes
pub mod Frame
pub mod Json
pub mod Payload
