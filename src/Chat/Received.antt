-- ===== src/Chat/Received.antt =====
-- What handleInbound stores and what it shows (internal/chat/p2p_service.go).
use skall.Base.{
  ℕ, ◌≡◌, ◌≤◌, refl, if_intro, ap, ◌∙◌, false, Option, none, some, arith, length, ltb,
  if◌then◌else◌, eq_iff,
}
use skall.Bytes.{Bytes, Bytes-eq, is_empty, trim_space}
use skall.Dict.{get, has}
use skall.Protocol.Message.{Message}
use skall.Protocol.Message.Valid.{IsValid}
use skall.Storage.Rows.{Times, Store, MessageRow, direction_inbound, status_received}
use skall.Storage.Errors.{StoreError}
use skall.Storage.Peers.{upsert_peer, upsert_peer_row}
use skall.Storage.Messages.{message_row}
use skall.Storage.RoundTrip.{insert_message_lem}
use skall.Chat.Subscribers.{publish}
use skall.Chat.Safe.{IsSafe}
use skall.Chat.Panics.{publish-IsSafe}
use skall.Chat.Node.{Node, new_message, get_peer_name, max_peer_id_len, published, with_subscribers}
use skall.Chat.Inbound.{inbound_display, persist_inbound, handle_inbound}

module _ (times : Times) where
  upsert_peer_row-messages :
      (fault : Option Bytes) (now : ℕ) (s : Store) (peer_id name : Bytes) (seen_at : ℕ)
      → (upsert_peer_row times fault now s peer_id name seen_at).0.messages ≡ s.messages
  unfolding upsert_peer_row
  upsert_peer_row-messages (some fault) now s peer_id name seen_at = refl
  upsert_peer_row-messages none now s peer_id name seen_at = refl

  upsert_peer-messages :
      (fault : Option Bytes) (now : ℕ) (s : Store) (peer_id name : Bytes) (seen_at : ℕ)
      → (upsert_peer times fault now s peer_id name seen_at).0.messages ≡ s.messages
  unfolding upsert_peer
  upsert_peer-messages fault now s peer_id name seen_at =
      if_intro (λ (r : Store × Option StoreError). r.0.messages ≡ s.messages)
        (is_empty (trim_space peer_id)) _ _ (λ e. refl)
        (λ e. upsert_peer_row-messages fault now s _ _ _)

  -- When the database stores the message, the subscribers are safe, the peer ID has at most 512
  -- bytes and the message is valid with a new ID: handleInbound does not panic, its event has the ID,
  -- the body and the time of the message under the ID that libp2p has authenticated, and the store
  -- keeps its body under the sender ID that the remote peer claims, as received.
  pub handle_inbound_lem :
      (peer_fault : Option Bytes) (now : ℕ) (m : Message) (from : Bytes) (n : Node)
      → IsSafe n.subscribers
      → IsValid m
      → has m.id n.store.messages ≡ false
      → length from ≤ max_peer_id_len
      → (n' : Node) × (handle_inbound times peer_fault none now m from n ≡ some n')
        × (publish
              (new_message (if is_empty m.group_id then from else m.group_id) (record {
                id = m.id;
                sender_id = from;
                sender_name = get_peer_name n from;
                body = m.body;
                timestamp = m.timestamp;
                is_outbound = false;
              }))
              n.subscribers
            ≡ some n'.subscribers)
        × (row : MessageRow) × (get m.id n'.store.messages ≡ some row)
        × (row.sender_id ≡ m.sender_id)
        × (row.body ≡ m.body)
        × (row.status ≡ status_received)
  unfolding handle_inbound published persist_inbound inbound_display get_peer_name
  handle_inbound_lem peer_fault now m from n safe valid new short =
      let kept = persist_inbound times peer_fault none now m from n in
      let shown = inbound_display kept m from in
      let (subs, out, safe') =
        publish-IsSafe (new_message (if is_empty m.group_id then from else m.group_id) shown)
          n.subscribers safe in
      let still = ap (has m.id) (upsert_peer-messages peer_fault now n.store from from now) ∙ new in
      let stored =
        (insert_message_lem times now (upsert_peer times peer_fault now n.store from from now).0 m
          direction_inbound status_received m.id valid).1 in
      let long : ltb max_peer_id_len (length from) ≡ false = ground arith in
      (
        record kept { subscribers = subs },
        rw long (ap (with_subscribers kept) out),
        out,
        message_row times m direction_inbound status_received now,
        stored ∙ ground (arith, still, eq_iff m.id m.id),
        unfold message_row in refl,
        unfold message_row in refl,
        unfold message_row in refl,
      )
