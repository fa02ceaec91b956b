-- ===== src/Tests/Server.antt =====
-- The properties of the TCP server with three clients.
use skall.Base.{inr, ℕ, ◌≡◌, ◌↔◌, refl, true, false, none, some, [], ◌∷◌, arith, ℕ-eq}
use skall.Bytes.{Bytes, Bytes-eq, bytes_eq, lit, trim_space}
use skall.Dict.{get}
use skall.Protocol.Message.{Message, is_blank}
use skall.Server.State.{Server, new_server, new_client, accept, remove_client}
use skall.Server.Routing.{broadcast, enqueue_client, interrupted_enqueue}
use skall.Server.Loops.{Turn, read_loop}
use skall.Server.Bounds.{IsBounded}
use skall.Server.Reach.{Reach, Step, Reach-IsBounded}
use skall.Server.Recipients.{delivered, broadcast_private, broadcast_public}
use skall.Server.Ends.{Ended, read_loop_ends, interrupted_enqueue_lem}
use skall.Protocol.Message.Valid.{IsValid}
use skall.Server.Routing.{failure_notice}
use skall.Storage.Rows.{new_store, status_failed}
use skall.Chat.Status.{status_in}
use skall.Client.Session.{Session, receive}
use skall.Client.Notices.{receive-failure_notice}
use skall.Tests.Codec.{json, times}
use skall.Tests.Protocol.{hello}

abbrev format : ℕ → Bytes
format t = t ∷ []

-- Client 1 is closed.
abbrev three : Server
three = record {
  conns = (0, new_client) ∷ (1, record new_client { closed = true }) ∷ (2, new_client) ∷ [];
  clients = (0, tt) ∷ (1, tt) ∷ (2, tt) ∷ [];
  peers = (lit "bob", 1) ∷ [];
  next = 3;
  closed = false;
}

abbrev to_all : Message
to_all = record hello { recipient_id = [] }

Reach-IsBounded_example : IsBounded (remove_client 0 (accept new_server))
Reach-IsBounded_example =
    Reach-IsBounded {format = format}
      (Reach.next (Reach.next Reach.start Step.accepts) (Step.removes 0))

broadcast_public_example :
    get 2 (broadcast format 5 0 (0 ∷ 1 ∷ 2 ∷ []) to_all three).conns
    ≡ delivered to_all (get 2 three.conns)
unfolding is_blank trim_space
broadcast_public_example =
    broadcast_public format 5 0 2 (0 ∷ 1 ∷ 2 ∷ []) to_all three refl (refl, (refl, (refl, tt)))

broadcast_private_example :
    get 2 (broadcast format 5 0 (0 ∷ 1 ∷ 2 ∷ []) hello three).conns ≡ get 2 three.conns
unfolding is_blank trim_space get bytes_eq
broadcast_private_example =
    broadcast_private format 5 0 2 (0 ∷ 1 ∷ 2 ∷ []) hello three refl refl (λ e. ground arith)

abbrev turn : Turn
turn = record { now = 5; order = 0 ∷ 1 ∷ 2 ∷ []; armed = true }

read_loop_ends_example :
    Ended format 0 three (read_loop json format (turn ∷ turn ∷ turn ∷ []) 0 (0 ∷ 0 ∷ []) three)
read_loop_ends_example =
    read_loop_ends json format (turn ∷ turn ∷ turn ∷ []) 0 (0 ∷ 0 ∷ []) three (omega arith)

interrupted_enqueue_example :
    ((interrupted_enqueue true hello new_client ≡ none)
      ↔ ((true ≡ true) × (new_client.closed ≡ false)))
    × (interrupted_enqueue false hello new_client ≡ some (enqueue_client hello new_client))
interrupted_enqueue_example = interrupted_enqueue_lem true hello new_client

abbrev session : Session
session = record { store = new_store; peers = [] }

notice-IsValid : IsValid (failure_notice (lit "9") 5 hello (lit " disconnected"))
unfolding is_blank trim_space failure_notice
notice-IsValid = record {
  version_known = refl;
  id_given = refl;
  sender_given = refl;
  body_given = refl;
  type_known = inr (inr (inr refl));
  dated = ground arith;
  id_fits = omega arith;
  sender_fits = omega arith;
  recipient_fits = omega arith;
  group_fits = omega arith;
  body_fits = omega arith;
}

receive-failure_notice_example :
    let notice = failure_notice (lit "9") 5 hello (lit " disconnected") in
    let after = receive times (record { first = none; second = none; now = 6 }) notice session in
    (status_in (lit "9") after.store ≡ some status_failed)
    × (status_in hello.id after.store ≡ status_in hello.id new_store)
unfolding get bytes_eq
receive-failure_notice_example =
    receive-failure_notice times (record { first = none; second = none; now = 6 }) (lit "9") 5 hello
      (lit " disconnected") session refl notice-IsValid refl refl
