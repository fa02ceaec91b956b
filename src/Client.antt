-- ===== src/Client.antt =====
-- The client of the TCP server (StartClient in internal/network/client.go): what it stores of the messages
-- that it sends and receives.
pub mod Session
pub mod Notices
