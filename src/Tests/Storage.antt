-- ===== src/Tests/Storage.antt =====
-- The properties of the store on a small database.
use skall.Base.{ℕ, ◌≡◌, refl, false, ◌&&◌, ◌==◌, none, some, [], ◌∷◌, arith, ok, err, if◌then◌else◌}
use skall.Bytes.{Bytes, Bytes-eq, lit, trim_space, bytes_eq}
use skall.Dict.{Dict, get}
use skall.Protocol.Message.{Message, validate, is_blank, is_known_type, check_lengths}
use skall.Storage.Rows.{Store, new_store, MessageRow, Pair-eq}
use skall.Storage.Errors.{no_rows}
use skall.Storage.Membership.{set_group_membership}
use skall.Storage.Messages.{
  insert_message, insert_row, message_row, get_message, update_message_status,
}
use skall.Storage.RoundTrip.{
  stored_as, insert_message_lem, get_message-insert_message, padded_id_lost,
}
use skall.Storage.Active.{is_active, display_name_of, set_group_membership_lem}
use skall.Tests.Codec.{times}
use skall.Tests.Protocol.{hello, hello-IsValid}

abbrev g : Bytes
g = lit "g"

abbrev with_group : Store
with_group = record new_store {
  groups = (g, record { name = lit "team"; created_at = 1 ∷ []; updated_at = 1 ∷ [] }) ∷ [];
}

abbrev padded : Message
padded = record hello { id = lit "7 " }

abbrev row : Bytes → ℕ → MessageRow
row text t = message_row times (record hello { group_id = g; timestamp = t; body = text }) [] [] t

insert_message_example :
    let r = insert_message times none 9 new_store hello [] [] in
    (r.1 ≡ none) × (get (lit "7") r.0.messages ≡ some (message_row times hello [] [] 9))
unfolding get bytes_eq
insert_message_example = insert_message_lem times 9 new_store hello [] [] (lit "7") hello-IsValid

get_message-insert_message_example :
    get_message times none (insert_message times none 9 new_store hello [] []).0 (lit "7")
    ≡ ok (stored_as hello [] [] 9)
unfolding insert_message insert_row validate is_blank trim_space is_known_type bytes_eq
    check_lengths get
get_message-insert_message_example =
    get_message-insert_message times 9 new_store hello [] [] refl (omega arith) (omega arith) refl

padded_id_lost_example :
    let s' = (insert_message times none 9 new_store padded [] []).0 in
    (get_message times none s' (lit "7 ") ≡ err no_rows)
    × (update_message_status times none 9 s' (lit "7 ") (lit "sent") ≡ (s', some no_rows))
unfolding insert_message insert_row validate is_blank trim_space is_known_type bytes_eq
    check_lengths get
padded_id_lost_example =
    padded_id_lost times 9 new_store padded [] [] (lit "sent") (ground arith) refl refl refl

abbrev rows : Dict Bytes MessageRow
rows = (lit "8", row (lit "b") 6) ∷ (lit "7", row (lit "a") 5) ∷ []

abbrev with_rows : Store
with_rows = record new_store { messages = rows }

set_group_membership_example :
    let r = set_group_membership times none none 2 with_group g (lit "ann") 0 false 0 in
    (r.1 ≡ none)
    × ((h p : Bytes)
        → is_active r.0 h p ≡ (
            if trim_space g == h && trim_space (lit "ann") == p
            then false
            else is_active with_group h p))
    × (r.0.groups ≡ with_group.groups)
    × (display_name_of r.0 (trim_space (lit "ann")) ≡ some (trim_space (lit "ann")))
unfolding get trim_space bytes_eq
set_group_membership_example =
    set_group_membership_lem times 2 with_group g (lit "ann") 0 false 0 refl refl refl
