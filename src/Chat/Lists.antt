-- ===== src/Chat/Lists.antt =====
-- The lists that P2PService shows (internal/chat/p2p_service.go). A `Reads` has what the database answers
-- to each query.
use skall.Base.{
  ℕ, Bool, true, false, not, ◌&&◌, ◌||◌, Option, none, some, List, [], ◌∷◌, ◌++◌, contains, nat_eq,
  if◌then◌else◌, ◌==◌, Result, ok, err,
}
use skall.Bytes.{Bytes, Bytes-eq, is_empty}
use skall.Dict.{size}
use skall.Groups.State as GroupState
use skall.Groups.Methods.{list_groups, get_group}
use skall.Storage.Rows.{Times, Store, StoredMessage}
use skall.Storage.Rows as Rows
use skall.Storage.Errors.{StoreError}
use skall.Storage.Peers as Peers
use skall.Storage.Messages.{list_direct_conversation, list_group_conversation}
use skall.Chat.Node.{Node, DisplayMessage, sender_of, display_name, to_display_messages}

pub record Reads : Type 0 where
  pub peers : Option Bytes
  pub direct : Bytes → Option Bytes
  pub direct_again : Bytes → Option Bytes
  pub group : Bytes → Option Bytes

pub data ConversationType : Type 0 where
  conversation_direct conversation_group : ConversationType

pub record Conversation : Type 0 where
  pub id : Bytes
  pub name : Bytes
  pub type : ConversationType
  pub last_message : Bytes
  pub last_at : ℕ
  pub unread : ℕ

pub record Group : Type 0 where
  pub group_id : Bytes
  pub name : Bytes
  pub member_count : ℕ
  pub created_at : ℕ

pub record Peer : Type 0 where
  pub peer_id : Bytes
  pub display_name : Bytes
  pub connected : Bool
  pub last_seen : ℕ

abbrev pub messages_of : Result StoreError (List StoredMessage) → List StoredMessage
messages_of (err e) = []
messages_of (ok msgs) = msgs

abbrev is_nil {ℓ} : {A : Type ℓ} → List A → Bool
is_nil [] = true
is_nil (x ∷ xs) = false

-- The preview of a conversation: the body and the time of the first message, or what stands in for them.
unfoldable pub preview : List StoredMessage → ℕ → Bytes × ℕ
preview [] last_at = ([], last_at)
preview (sm ∷ msgs) last_at = (sm.message.body, sm.message.timestamp)

abbrev pub libp2p_text : Node → Bytes
libp2p_text n = elim n.libp2p_id [ none ↦ [] | some id ↦ id ]

abbrev pub is_self : Node → Bytes → Bool
is_self n id = id == n.local_id || not (is_empty (libp2p_text n)) && id == libp2p_text n

unfoldable pub conversation : Bytes → Bytes → ConversationType → Bytes × ℕ → Conversation
conversation id name type (body, at) = record {
  id = id;
  name = name;
  type = type;
  last_message = body;
  last_at = at;
  unread = 0;
}

-- The loop of ListGroups, on the sorted IDs.
unfoldable pub group_of : Option GroupState.Group → List Group → List Group
group_of none rest = rest
group_of (some g) rest =
    record {
      group_id = g.id;
      name = g.name;
      member_count = size g.members;
      created_at = g.created_at;
    }
    ∷ rest

unfoldable pub groups_in : GroupState.Manager → List Bytes → List Group
groups_in m [] = []
groups_in m (id ∷ ids) = group_of (get_group m id) (groups_in m ids)

-- P2PService.ListGroups
unfoldable pub list_groups_of : Node → List Group
list_groups_of n = groups_in n.groups (list_groups n.groups)

-- The loop of ListPeers.
unfoldable pub peers_in : List Bytes → Bytes → List Rows.Peer → List Peer
peers_in connected local [] = []
peers_in connected local (p ∷ stored) =
    let rest = peers_in connected local stored in
    if p.peer_id == local
    then rest
    else record {
      peer_id = p.peer_id;
      display_name = display_name p.peer_id p.display_name;
      connected = contains p.peer_id connected;
      last_seen = p.last_seen;
    }
      ∷ rest

module _ (times : Times) (reads : Reads) where
  -- The messages that ListConversations reads for one peer: again under the other ID when there are none.
  unfoldable pub last_direct : Node → Bytes → List StoredMessage
  last_direct n pid =
      let msgs =
        messages_of
          (list_direct_conversation times (reads.direct pid) n.store (libp2p_text n) pid 1) in
      if is_nil msgs && not (libp2p_text n == n.local_id)
      then messages_of
          (list_direct_conversation times (reads.direct_again pid) n.store n.local_id pid 1)
      else msgs

  -- The loops of ListConversations, over the stored peers and over the groups.
  unfoldable pub direct_conversations : Node → List Rows.Peer → List Conversation
  direct_conversations n [] = []
  direct_conversations n (p ∷ peers) =
      let rest = direct_conversations n peers in
      if is_self n p.peer_id
      then rest
      else conversation p.peer_id (display_name p.peer_id p.display_name) conversation_direct
          (preview (last_direct n p.peer_id) p.last_seen)
        ∷ rest

  unfoldable pub group_conversation :
      Node → Bytes → Option GroupState.Group → List Conversation → List Conversation
  group_conversation n id none rest = rest
  group_conversation n id (some g) rest =
      conversation id g.name conversation_group (
        preview (messages_of (list_group_conversation times (reads.group id) n.store id 1))
          g.created_at)
      ∷ rest

  unfoldable pub group_conversations : Node → List Bytes → List Conversation
  group_conversations n [] = []
  group_conversations n (id ∷ ids) =
      group_conversation n id (get_group n.groups id) (group_conversations n ids)

  unfoldable pub conversations_with :
      Node → Result StoreError (List Rows.Peer) → Result StoreError (List Conversation)
  conversations_with n (err e) = err e
  conversations_with n (ok peers) =
      ok (direct_conversations n peers ++ group_conversations n (list_groups n.groups))

  -- ListConversations
  unfoldable pub list_conversations : Node → Result StoreError (List Conversation)
  list_conversations n = conversations_with n (Peers.list_peers times reads.peers n.store)

  unfoldable pub peers_with :
      List Bytes → Node → Result StoreError (List Rows.Peer) → Result StoreError (List Peer)
  peers_with connected n (err e) = err e
  peers_with connected n (ok stored) = ok (peers_in connected n.local_id stored)

  -- P2PService.ListPeers
  unfoldable pub list_peers_of : List Bytes → Node → Result StoreError (List Peer)
  list_peers_of connected n = peers_with connected n (Peers.list_peers times reads.peers n.store)

  unfoldable pub displayed :
      Node → Result StoreError (List StoredMessage) → Result StoreError (List DisplayMessage)
  displayed n (err e) = err e
  displayed n (ok msgs) = ok (to_display_messages n msgs)

  -- What GetMessages makes of its two reads of a direct conversation.
  abbrev pub first_of :
      Result StoreError (List StoredMessage)
      → List StoredMessage
      → Result StoreError (List StoredMessage)
  first_of (err e) [] = err e
  first_of (err e) (sm ∷ again) = ok (sm ∷ again)
  first_of (ok []) again = ok again
  first_of (ok (sm ∷ msgs)) again = ok (sm ∷ msgs)

  unfoldable pub direct_messages : Node → Bytes → ℕ → Result StoreError (List StoredMessage)
  direct_messages n id limit =
      let first = list_direct_conversation times (reads.direct id) n.store (sender_of n) id limit in
      if sender_of n == n.local_id
      then first
      else first_of first (
          messages_of
            (list_direct_conversation times (reads.direct_again id) n.store n.local_id id limit))

  unfoldable pub messages_in :
      Node → Bytes → ℕ → Option GroupState.Group → Result StoreError (List DisplayMessage)
  messages_in n id limit (some g) =
      displayed n (list_group_conversation times (reads.group id) n.store id limit)
  messages_in n id limit none = displayed n (direct_messages n id limit)

  -- GetMessages
  unfoldable pub get_messages : Node → Bytes → ℕ → Result StoreError (List DisplayMessage)
  get_messages n id limit =
      messages_in n id (if nat_eq limit 0 then 100 else limit) (get_group n.groups id)
