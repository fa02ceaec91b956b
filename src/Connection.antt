-- ===== src/Connection.antt =====
-- The connection manager: network/connection/manager.go.
pub mod Manager
pub mod Dials
pub mod Reach
