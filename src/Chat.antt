-- ===== src/Chat.antt =====
-- The chat service (internal/chat/p2p_service.go): groups in memory and in the store, and subscribers.
pub mod Service
pub mod Joined
pub mod Subscribers
pub mod Open
pub mod Safe
pub mod Panics
pub mod Node
pub mod Sending
pub mod Inbound
pub mod Lists
pub mod Status
pub mod Received
pub mod Ticks
pub mod Listed
