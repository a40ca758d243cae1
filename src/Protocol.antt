-- ===== src/Protocol.antt =====
-- internal/protocol: message types, close codes, framing.
pub mod CloseCodes
pub mod Framing
pub mod Messages
pub mod Parsing
