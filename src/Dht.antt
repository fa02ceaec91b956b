-- ===== src/Dht.antt =====
-- The Kademlia DHT (internal/network/p2p/dht.go): the routing table, the records of who provides a
-- namespace, and the answers to other nodes. A peer.ID and an address are texts; a duration is the 64-bit
-- pattern of its nanoseconds; a time is a number of nanoseconds. A nil manager does nothing, and is not modelled.
pub mod State
pub mod Distance
pub mod Table
pub mod Providers
pub mod Serve
pub mod Search
pub mod Dists
pub mod Once
pub mod Closest
pub mod Expiry
pub mod Found
pub mod Keeps
pub mod Reach
pub mod Advertised
pub mod Discovered
pub mod Metric
