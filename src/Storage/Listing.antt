-- ===== src/Storage/Listing.antt =====
-- What ListGroupConversation and ListDirectConversation return (internal/storage/store.go).
use Prim.Native.Nat.{min}
use skall.Base.{
  ℕ, ◌≡◌, ◌⊎◌, none, some, List, ◌++◌, map, length, All, IsDistinct, nat_eq, if◌then◌else◌, Result,
  ok,
}
use skall.Bytes.{Bytes, Bytes-eq}
use skall.Dict.{Dict}
use skall.Dict.Sort.{images}
use skall.Storage.Rows.{MessageRow, StoredMessage}
use skall.Storage.Errors.{StoreError}
use skall.Storage.Conversation.{Row, row_id, IsOrdered, HasEach}

-- What a conversation returns: the first rows, as many as the limit, of those for which P holds.
abbrev pub Conversation :
    (Row → Type 0)
    → ℕ
    → Dict Bytes MessageRow
    → (Row → StoredMessage)
    → Result StoreError (List StoredMessage)
    → Type 0
Conversation P limit rows read answer =
    (result : List Row) × (rest : List Row) × (answer ≡ ok (map read result))
    × IsOrdered (result ++ rest)
    × All P (result ++ rest)
    × HasEach P (images row_id (result ++ rest)) rows
    × IsDistinct (images row_id (result ++ rest))
    × (length result ≡ min limit (length (result ++ rest)))

abbrev pub limit_of : ℕ → ℕ
limit_of limit = if nat_eq limit 0 then 100 else limit

-- A row of the group, and a row between the two peers outside of every group.
abbrev pub OfGroup : Bytes → Row → Type 0
OfGroup g row = row.1.group_id ≡ some g

abbrev pub Between : Bytes → Bytes → Row → Type 0
Between a b row =
    (row.1.group_id ≡ none)
    × (((row.1.sender_id ≡ a) × (row.1.recipient_id ≡ some b))
        ⊎ ((row.1.sender_id ≡ b) × (row.1.recipient_id ≡ some a)))
