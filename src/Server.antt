-- ===== src/Server.antt =====
-- The TCP server (internal/network/tcp.go and the clientConn of client.go): accepted connections, the
-- routing of messages between them, and the loops that read and write.
pub mod State
pub mod Routing
pub mod Loops
pub mod Bounds
pub mod Keeps
pub mod Reach
pub mod Recipients
pub mod Ends
