-- ===== src/Discovery/Peer.antt =====
-- PeerInfo and its events (internal/network/discovery/types.go). A port that is not positive is 0.
use skall.Base.{ℕ, Bool, true, false, ◌||◌, ◌∷◌, ◌++◌, nat_eq, ltb, if◌then◌else◌, contains, ℕ-eq}
use skall.Bytes.{Bytes, is_empty, trim_space}
use skall.Discovery.Decimal.{itoa}

pub record PeerInfo : Type 0 where
  pub peer_id : Bytes
  pub display_name : Bytes
  pub host : Bytes
  pub port : ℕ

-- EventType is an int: any other value is `other_event`.
pub data EventType : Type 0 where
  peer_added peer_removed other_event : EventType

pub record Event : Type 0 where
  pub type : EventType
  pub peer : PeerInfo

-- PeerInfo.IsValid
unfoldable pub is_valid : PeerInfo → Bool
is_valid p =
    if is_empty (trim_space p.peer_id)
    then false
    else if is_empty (trim_space p.host)
    then false
    else if nat_eq p.port 0 || ltb 65535 p.port
    then false
    else true

-- net.JoinHostPort: a host with a colon stands in brackets.
unfoldable pub join_host_port : Bytes → Bytes → Bytes
join_host_port host port =
    if contains 58 host then 91 ∷ host ++ 93 ∷ 58 ∷ port else host ++ 58 ∷ port

-- PeerInfo.Endpoint
unfoldable pub endpoint : PeerInfo → Bytes
endpoint p = join_host_port (trim_space p.host) (itoa p.port)

-- PeerInfo.Key
unfoldable pub key : PeerInfo → Bytes
key p = let peer_id = trim_space p.peer_id in if is_empty peer_id then endpoint p else peer_id
