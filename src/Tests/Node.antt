-- ===== src/Tests/Node.antt =====
-- The properties of the chat service on a node with one peer.
use skall.Base.{◌≡◌, refl, true, false, ◌&&◌, none, some, [], ◌∷◌, arith, inl}
use skall.Bytes.{Bytes-eq, lit, trim_space}
use skall.Dict.{get}
use skall.Protocol.Message.{new_chat_message, is_blank}
use skall.Protocol.Message.Valid.{IsValid}
use skall.Groups.State as GroupState
use skall.Storage.Rows.{new_store, MessageRow, status_received}
use skall.Chat.Subscribers.{no_subscribers, subscribe, publish}
use skall.Chat.Safe.{IsSafe}
use skall.Chat.Panics.{Reach-IsSafe, Reach, Step}
use skall.Chat.Node.{Node, connecting, new_message, sender_of, get_peer_name}
use skall.Chat.Sending.{Call, Network, send_direct}
use skall.Chat.Inbound.{handle_inbound, monitor_tick, upsert_each}
use skall.Chat.Status.{Sent, send_direct_lem}
use skall.Chat.Received.{handle_inbound_lem}
use skall.Chat.Ticks.{status_for, monitor_tick_again}
use skall.Tests.Codec.{times}
use skall.Tests.Protocol.{hello, hello-IsValid}

abbrev node : Node
node = record {
  local_id = lit "ann";
  libp2p_id = some (lit "12ann");
  groups = GroupState.new_manager;
  store = new_store;
  peer_names = [];
  subscribers = no_subscribers;
  status = connecting;
  last_count = 0;
}

safe : IsSafe node.subscribers
safe = Reach-IsSafe Reach.start

abbrev call : Call
call = record { now = 5; format = λ t. 48 ∷ []; insert_fault = none; update_fault = none }

-- The message cannot be sent.
abbrev net : Network
net = record { decodes = λ id. true; connected = []; sends = λ id m. false }

sent-IsValid : IsValid (new_chat_message call.format 5 (lit "12ann") (lit "bob") [] (lit "hi"))
unfolding is_blank trim_space new_chat_message
sent-IsValid = record {
  version_known = refl;
  id_given = refl;
  sender_given = refl;
  body_given = refl;
  type_known = inl refl;
  dated = ground arith;
  id_fits = omega arith;
  sender_fits = omega arith;
  recipient_fits = omega arith;
  group_fits = omega arith;
  body_fits = omega arith;
}

send_direct_example :
    Sent
      (lit "0")
      (net.decodes (lit "bob") && net.sends (lit "bob") hello)
      (send_direct times call net (lit "bob") (lit "hi") node)
unfolding sender_of trim_space get
send_direct_example =
    send_direct_lem times call net (lit "bob") (lit "hi") node safe refl refl sent-IsValid refl refl

-- The node with one subscriber.
abbrev watched : Node
watched = record node { subscribers = (subscribe no_subscribers).0 }

watched-IsSafe : IsSafe watched.subscribers
watched-IsSafe = Reach-IsSafe (Reach.next Reach.start Step.subscribes)

handle_inbound_example :
    (n' : Node) × (handle_inbound times none none 5 hello (lit "12eve") watched ≡ some n')
    × (publish
          (new_message (lit "12eve") (record {
            id = lit "7";
            sender_id = lit "12eve";
            sender_name = get_peer_name watched (lit "12eve");
            body = hello.body;
            timestamp = hello.timestamp;
            is_outbound = false;
          }))
          watched.subscribers
        ≡ some n'.subscribers)
    × (row : MessageRow) × (get (lit "7") n'.store.messages ≡ some row)
    × (row.sender_id ≡ lit "ann")
    × (row.body ≡ hello.body)
    × (row.status ≡ status_received)
unfolding get
handle_inbound_example =
    handle_inbound_lem times none 5 hello (lit "12eve") watched watched-IsSafe hello-IsValid refl
      (omega arith)

monitor_tick_again_example :
    (n' : Node) × (monitor_tick times (λ id. none) 5 (lit "12bob" ∷ []) node ≡ some n')
    × (n'.status ≡ status_for (lit "12bob" ∷ []))
    × (monitor_tick times (λ id. none) 7 (lit "12bob" ∷ []) n'
        ≡ some (record n' { store = upsert_each times (λ id. none) 7 (lit "12bob" ∷ []) n'.store }))
monitor_tick_again_example =
    monitor_tick_again times (λ id. none) (λ id. none) 5 7 (lit "12bob" ∷ []) node safe
