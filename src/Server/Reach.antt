-- ===== src/Server/Reach.antt =====
-- Any interleaving of the goroutines of the TCP server (internal/network/tcp.go): each accepted connection,
-- each turn of a loop and Shutdown is a step.
use skall.Base.{ℕ, Bool, List, ℕ-eq}
use skall.Bytes.{Bytes, Bytes-eq}
use skall.Protocol.Message.{Message, validate}
use skall.Server.State.{Server, new_server, accept, remove_client, shutdown}
use skall.Server.Loops.{Turn, write_turn, handle_message}
use skall.Server.Bounds.{IsBounded, new_server-IsBounded, accept-IsBounded, remove_client-IsBounded}
use skall.Server.Keeps.{handle_valid-IsBounded, write_turn-IsBounded, shutdown-IsBounded}

-- A step of one goroutine. A read that fails ends in removeClient, as a write that fails does.
pub data Step (format : ℕ → Bytes) (s : Server) : Server → Type 0 where
  accepts : Step format s (accept s)
  handles : (k : ℕ) (turn : Turn) (m : Message) → Step format s (handle_message format k turn m s)
  writes : (k : ℕ) (written : Bool) → Step format s (write_turn k written s)
  removes : (k : ℕ) → Step format s (remove_client k s)
  shuts : (order : List ℕ) → Step format s (shutdown order s)

pub data Reach (format : ℕ → Bytes) : Server → Type 0 where
  start : Reach format new_server
  next : {s t : Server} → Reach format s → Step format s t → Reach format t

step-IsBounded : {format : ℕ → Bytes} {s t : Server} → Step format s t → IsBounded s → IsBounded t
unfolding handle_message
step-IsBounded {format} {s} accepts h = accept-IsBounded s h
step-IsBounded {format} {s} (handles k turn m) h =
    handle_valid-IsBounded format k turn m (validate m) s h
step-IsBounded {format} {s} (writes k written) h = write_turn-IsBounded k written s h
step-IsBounded {format} {s} (removes k) h = remove_client-IsBounded k s h
step-IsBounded {format} {s} (shuts order) h = shutdown-IsBounded order s h

-- Whatever clients connect, send and drop, in any interleaving, the server has at most 256 clients, no
-- client's channel holds more than 16 messages, and every registered peer refers to a client that was
-- accepted.
pub Reach-IsBounded : {format : ℕ → Bytes} {s : Server} → Reach format s → IsBounded s
Reach-IsBounded start = new_server-IsBounded
Reach-IsBounded (next r step) = step-IsBounded step (Reach-IsBounded r)
