-- ===== src/Chat/Listed.antt =====
-- Who the lists of P2PService show (internal/chat/p2p_service.go).
use skall.Base.{◌≡◌, refl, not, ◌&&◌, List, [], ◌∷◌, arith, contains, if_intro, ◌==◌, eq_iff, All}
use skall.Bytes.{Bytes, Bytes-eq}
use skall.Storage.Rows.{Times}
use skall.Storage.Rows as Rows
use skall.Chat.Node.{Node}
use skall.Chat.Lists.{
  Reads, Conversation, Peer, conversation, peers_in, direct_conversations, is_self,
}

abbrev pub stored_ids : List Rows.Peer → List Bytes
stored_ids [] = []
stored_ids (p ∷ stored) = p.peer_id ∷ stored_ids stored

abbrev pub peer_ids : List Peer → List Bytes
peer_ids [] = []
peer_ids (p ∷ peers) = p.peer_id ∷ peer_ids peers

abbrev pub conversation_ids : List Conversation → List Bytes
conversation_ids [] = []
conversation_ids (c ∷ convs) = c.id ∷ conversation_ids convs

contains-peers_in :
    (connected : List Bytes) (local k : Bytes) (stored : List Rows.Peer)
    → contains k (peer_ids (peers_in connected local stored))
      ≡ (contains k (stored_ids stored) && not (k == local))
unfolding peers_in
contains-peers_in connected local k [] = refl
contains-peers_in connected local k (p ∷ stored) = ground (
  arith,
  contains-peers_in connected local k stored,
  eq_iff p.peer_id k,
  eq_iff p.peer_id local,
  eq_iff k local,
)

peers_in-connected :
    (connected : List Bytes) (local : Bytes) (stored : List Rows.Peer)
    → All
        (λ (p : Peer). p.connected ≡ contains p.peer_id connected)
        (peers_in connected local stored)
unfolding peers_in
peers_in-connected connected local [] = tt
peers_in-connected connected local (p ∷ stored) =
    if_intro (All (λ (q : Peer). q.connected ≡ contains q.peer_id connected)) (p.peer_id == local) _
      _ (λ e. peers_in-connected connected local stored)
      (λ e. (refl, peers_in-connected connected local stored))

-- ListPeers shows every stored peer but the local one, and each as connected exactly if it is.
peers_in_lem :
    (connected : List Bytes) (local k : Bytes) (stored : List Rows.Peer)
    → (contains k (peer_ids (peers_in connected local stored))
        ≡ (contains k (stored_ids stored) && not (k == local)))
      × All
          (λ (p : Peer). p.connected ≡ contains p.peer_id connected)
          (peers_in connected local stored)
peers_in_lem connected local k stored =
    (contains-peers_in connected local k stored, peers_in-connected connected local stored)

-- ListConversations has one direct conversation for each stored peer but the local one, under either of its IDs.
contains-direct_conversations :
    (times : Times) (reads : Reads) (n : Node) (k : Bytes) (stored : List Rows.Peer)
    → contains k (conversation_ids (direct_conversations times reads n stored))
      ≡ (contains k (stored_ids stored) && not (is_self n k))
unfolding direct_conversations conversation
contains-direct_conversations times reads n k [] = refl
contains-direct_conversations times reads n k (p ∷ stored) =
    ground (arith, contains-direct_conversations times reads n k stored, eq_iff p.peer_id k)
