-- ===== src/Protocol/Payload.antt =====
-- The payload codecs of include/coredesk/protocol/JsonPayload.h and src/protocol/JsonPayload.cpp.
pub mod Checks
pub mod Scan
pub mod Search
pub mod Lan
pub mod SendFile
pub mod Handshake
pub mod Transfer
pub mod Chunk
pub mod Kinds
mod Examples
