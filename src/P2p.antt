-- ===== src/P2p.antt =====
-- The p2p host (internal/network/p2p): retries with backoff, peer addresses, the streams of messages, and the
-- bootstrap peers. libp2p and its multiaddresses are parameters.
pub mod Backoff
pub mod Retries
pub mod Address
pub mod Matching
pub mod Host
pub mod Bootstrap
