-- ===== src/Lib.antt =====
-- Verification library of SKALL, a peer-to-peer chat program: messages travel as length-prefixed JSON
-- frames, a local identity is kept in a file, groups and their deduplication live in memory, and peers,
-- groups, memberships and messages are stored in SQLite.
--
-- Protocol models internal/protocol: Protocol/Message is message.go (Validate, MarshalMessage,
-- UnmarshalMessage, NewChatMessage) and Protocol/Framing is framing.go (WriteMessage, ReadMessage,
-- writeAll). A stream is the list of the bytes to come; a writer is the list of what its calls do.
-- Groups models internal/groups/group.go: Groups/State has the data, Groups/Methods the methods with
-- one critical section, Groups/Routing sending, routing, deduplication and pruning. Groups/Reach has any
-- interleaving of the critical sections. RouteGroupMessage is two of them, with any changes of other
-- goroutines in between. The order in which a range visits a map is an argument; the theorems on
-- pruning ask only that it yields each key once. LoadFromStore is no step of Groups/Reach.
-- Identity models internal/identity: Identity is Generate and Validate of identity.go, Identity/File is
-- Load, Save and LoadOrCreate of store.go over one file.
-- Storage models internal/storage/store.go: Storage/Rows has the tables as maps from primary keys,
-- Storage/Peers, Storage/Membership and Storage/Messages the methods. Each statement may fail with any
-- message of the engine (`fault`), and then changes nothing; the foreign keys are on, as Open sets them.
-- Storage/Listing has the conversations, Storage/Reach any sequence of writes.
-- Connection models internal/network/connection/manager.go: a goroutine of run is a numbered dial in
-- flight, and Connection/Reach has any interleaving of calls and ends of dials.
-- Chat models internal/chat/p2p_service.go: Chat/Service is CreateGroup, JoinGroup, LeaveGroup and
-- DeleteGroup over a manager and a store, Chat/Node the state with the names that it shows, Chat/Sending
-- SendDirect and SendGroup, Chat/Inbound handleInbound and a tick of monitorPeers, Chat/Lists the lists,
-- and Chat/Subscribers the channels of the subscribers, where a panic is `none`. Groups/Persistence is
-- LoadFromStore of internal/groups/persistence.go.
-- Discovery models internal/network/discovery: Discovery/Peer is types.go, Discovery/Mdns the scan and its
-- table with the channel of events, Discovery/Decimal is ParsePort, and Discovery/Connector is connector.go
-- over the connection manager, with what its events do to a peer in Discovery/Calls.
-- Server models the TCP server of internal/network/tcp.go and the clientConn of client.go: Server/State has
-- the maps and Shutdown, Server/Routing enqueue and broadcast, Server/Loops the loops of a client, and
-- Server/Reach any interleaving of their turns.
-- Client models persistOutbound, the announcement and the receiving goroutine of StartClient in
-- internal/network/client.go, over the store.
-- Dht models internal/network/p2p/dht.go: Dht/State the configuration and NewDHTManager, Dht/Table the routing
-- table, Dht/Distance ClosestPeers, Dht/Providers the records, Dht/Serve handleStream and Advertise,
-- Dht/Search FindPeers and discoverOnce, and Dht/Reach any sequence of calls and streams.
-- P2p models the rest of internal/network/p2p: P2p/Backoff is backoff.go, P2p/Address addr.go, P2p/Host the
-- streams of host.go, P2p/Bootstrap bootstrap.go. A Retry that still runs is `none`.
-- Ui models internal/ui: Ui/Sidebar the selection, Ui/App and Ui/Update the application, Ui/Listener how it
-- subscribes to the chat service, Ui/Hearing the loop, whose command is not called again after it returned nil.
-- Bytes has Go strings with the functions of package strings that the sources use, white space outside
-- ASCII included; Dict has maps; Base has the names that all modules share.
--
-- A time is a number of nanoseconds, 0 the zero time, and the clock is an argument `now`. Lengths are
-- native numbers; the frame header is four bytes with the division by powers of two written out. The
-- loops run over a list or a number. readLoop, which runs until a read fails, is given a list of turns.
-- Itoa takes nineteen digits, which is enough for a port.
--
-- Parameters: encoding/json (Json, IdentityJson), time.Format and time.Parse at RFC3339Nano (Times), the
-- public half of a private key and the hash of a key (Crypto). Their laws are fields of the records and
-- say that what is encoded is read back, where the text is valid UTF-8 and a year has four digits.
-- Tests/Codec has functions that meet them. Without laws: SHA-256 and encoding/json of a DHTMessage in
-- Dht, the text input in Ui, the network and peer.Decode in Chat, libp2p and the products of durations in
-- P2p.
--
-- Not modelled: the command line of the TCP client, the options and the mDNS service of the p2p host, rendering
-- and sizes of the terminal interface, opening and migrating the database, configuration and start-up.
mod Base
pub mod Bytes
pub mod Dict
pub mod Protocol
pub mod Groups
pub mod Identity
pub mod Storage
pub mod Connection
pub mod Chat
pub mod Discovery
pub mod Server
pub mod Client
pub mod Dht
pub mod P2p
pub mod Ui
pub mod Tests
