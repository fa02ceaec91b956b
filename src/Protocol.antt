-- ===== src/Protocol.antt =====
-- The wire protocol: messages, their validation, and frames (internal/protocol).
pub mod Message
pub mod Framing
