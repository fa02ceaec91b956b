-- ===== src/Discovery.antt =====
-- Discovery of peers on the local network (internal/network/discovery): what a peer announces, the mDNS
-- table of peers with its events, and the connector that turns events into calls of connection.Manager.
pub mod Decimal
pub mod Peer
pub mod Mdns
pub mod Connector
pub mod Diff
pub mod Rescan
pub mod Ports
pub mod Calls
