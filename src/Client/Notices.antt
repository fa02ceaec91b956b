-- ===== src/Client/Notices.antt =====
-- What the client makes of the notice that the server sends for a message that it could not deliver
-- (internal/network/client.go and internal/network/tcp.go).
use skall.Base.{
  ℕ, ◌≡◌, refl, ap, ◌∙◌, false, not, ◌&&◌, none, some, arith, eq_iff, ◌==◌, if◌then◌else◌,
}
use skall.Bytes.{Bytes, Bytes-eq, bytes_eq, to_lower, contains_text}
use skall.Dict.{get, has}
use skall.Protocol.Message.{Message}
use skall.Protocol.Message.Valid.{IsValid}
use skall.Storage.Rows.{Times, status_failed, direction_inbound}
use skall.Storage.Messages.{insert_message, message_row}
use skall.Storage.RoundTrip.{insert_message_lem}
use skall.Server.Routing.{failure_notice}
use skall.Client.Session.{Session, Answers, system_status, receive}
use skall.Chat.Status.{status_of, status_in}

system_status-failure_notice :
    (id : Bytes) (now : ℕ) (m : Message) (reason : Bytes)
    → system_status (failure_notice id now m reason).body ≡ status_failed
unfolding system_status failure_notice to_lower contains_text bytes_eq
system_status-failure_notice id now m reason = refl

-- With a working database for the message, the client stores a valid notice of the server for a
-- message that was not delivered as failed, under the ID of the notice, which is new and not that
-- of the message; the message itself keeps the status that it has in the store.
pub receive-failure_notice :
    (times : Times) (ans : Answers) (id : Bytes) (now : ℕ) (m : Message) (reason : Bytes)
    (s : Session)
    → ans.second ≡ none
    → IsValid (failure_notice id now m reason)
    → has id s.store.messages ≡ false
    → (id == m.id) ≡ false
    → (status_in id (receive times ans (failure_notice id now m reason) s).store
        ≡ some status_failed)
      × (status_in m.id (receive times ans (failure_notice id now m reason) s).store
          ≡ status_in m.id s.store)
unfolding receive failure_notice bytes_eq
receive-failure_notice times ans id now m reason s working valid new other =
    rw (system_status-failure_notice id now m reason, working)
      (
        ap status_of {y = some (message_row times notice direction_inbound status_failed ans.now)}
              (stored id ∙ ground (arith, new, eq_iff id id))
            ∙ failed_status,
        ap status_of {y = get m.id s.store.messages} (stored m.id ∙ ground (arith, other)),
      )
  where
    notice : Message
    notice = failure_notice id now m reason

    stored :
        (j : Bytes)
        → get j
            (insert_message times none ans.now s.store notice direction_inbound
              status_failed).0.messages
          ≡ (if id == j && not (has id s.store.messages)
              then some (message_row times notice direction_inbound status_failed ans.now)
              else get j s.store.messages)
    stored j =
        (insert_message_lem times ans.now s.store notice direction_inbound status_failed j valid).1

    failed_status :
        status_of (some (message_row times notice direction_inbound status_failed ans.now))
        ≡ some status_failed
    failed_status = unfold message_row in refl
