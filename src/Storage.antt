-- ===== src/Storage.antt =====
-- The SQLite store (internal/storage/store.go).
pub mod Rows
pub mod Errors
pub mod Peers
pub mod Membership
pub mod Messages
pub mod Conversation
pub mod Listing
pub mod RoundTrip
pub mod Keys
pub mod Active
pub mod Reach
