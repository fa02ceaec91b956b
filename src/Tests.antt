-- ===== src/Tests.antt =====
-- The properties at concrete inputs, with concrete functions for the parameters.
mod Codec
mod Groups
mod Protocol
mod Storage
mod Identity
mod Connection
mod Chat
mod Subscribers
mod Discovery
mod Server
mod Dht
mod Node
mod Ui
mod P2p
