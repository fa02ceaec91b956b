-- ===== src/Chat/Node.antt =====
-- The state of P2PService beyond its groups, its events, and the names that it shows
-- (internal/chat/types.go, events.go and p2p_service.go). A libp2p peer ID is its text.
use skall.Base.{
  ℕ, Bool, false, not, ◌&&◌, ◌||◌, Option, none, some, List, [], ◌∷◌, ◌++◌, map, leb, length, take,
  if◌then◌else◌, ◌==◌,
}
use skall.Bytes.{Bytes, Bytes-eq, lit, is_empty}
use skall.Dict.{Dict, get, put}
use skall.Protocol.Message.{Message}
use skall.Groups.State as GroupState
use skall.Storage.Rows.{Store, StoredMessage, direction_outbound}
use skall.Chat.Subscribers.{Subscribers, publish}

abbrev pub max_peer_id_len : ℕ
max_peer_id_len = 512

pub data ConnectionStatus : Type 0 where
  disconnected connecting connected : ConnectionStatus

pub record DisplayMessage : Type 0 where
  pub id : Bytes
  pub sender_id : Bytes
  pub sender_name : Bytes
  pub body : Bytes
  pub timestamp : ℕ
  pub is_outbound : Bool

-- An Event, with the fields that the service sets for its kind.
pub data Event : Type 0 where
  new_message : Bytes → DisplayMessage → Event
  peer_connected : Event
  status_changed : ConnectionStatus → Event

-- `libp2p_id` is what LibP2PPeerID gives for the local identity, `last_count` a variable of monitorPeers.
pub record Node : Type 0 where
  pub local_id : Bytes
  pub libp2p_id : Option Bytes
  pub groups : GroupState.Manager
  pub store : Store
  pub peer_names : Dict Bytes Bytes
  pub subscribers : Subscribers Event
  pub status : ConnectionStatus
  pub last_count : ℕ

-- The ID that SendDirect sends under, and GetMessages reads under.
unfoldable pub sender_of : Node → Bytes
sender_of n = elim n.libp2p_id [ none ↦ n.local_id | some id ↦ id ]

-- The three bytes of "…" after the first eight.
unfoldable pub short_id : Bytes → Bytes
short_id id = if leb (length id) 8 then id else take 8 id ++ 226 ∷ 128 ∷ 166 ∷ []

unfoldable pub display_name : Bytes → Bytes → Bytes
display_name peer_id stored_name =
    if not (is_empty stored_name) && not (stored_name == peer_id)
    then stored_name
    else short_id peer_id

unfoldable pub peer_name_of : Bytes → Option Bytes → Bytes
peer_name_of peer_id none = short_id peer_id
peer_name_of peer_id (some name) = if is_empty name then short_id peer_id else name

unfoldable pub get_peer_name : Node → Bytes → Bytes
get_peer_name n peer_id = peer_name_of peer_id (get peer_id n.peer_names)

unfoldable pub set_peer_name : Bytes → Bytes → Node → Node
set_peer_name peer_id name n = record n { peer_names = put peer_id name n.peer_names }

-- The test of storedToDisplay for a message of the local identity.
unfoldable pub is_mine : Node → Bytes → Bool
is_mine n sender_id =
    sender_id == n.local_id
    || elim n.libp2p_id [ none ↦ false | some id ↦ not (is_empty id) && sender_id == id ]

unfoldable pub stored_to_display : Node → Message → Bytes → DisplayMessage
stored_to_display n m direction = record {
  id = m.id;
  sender_id = m.sender_id;
  sender_name = if is_mine n m.sender_id then lit "You" else get_peer_name n m.sender_id;
  body = m.body;
  timestamp = m.timestamp;
  is_outbound = direction == direction_outbound;
}

unfoldable pub to_display_messages : Node → List StoredMessage → List DisplayMessage
to_display_messages n msgs = map (λ sm. stored_to_display n sm.message sm.direction) msgs

abbrev pub with_subscribers : Node → Option (Subscribers Event) → Option Node
with_subscribers n none = none
with_subscribers n (some subs) = some (record n { subscribers = subs })

-- publish: `none` is its panic.
unfoldable pub published : Event → Node → Option Node
published ev n = with_subscribers n (publish ev n.subscribers)
