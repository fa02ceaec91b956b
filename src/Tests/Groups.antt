-- ===== src/Tests/Groups.antt =====
-- The properties of groups.Manager at a group with three members.
use skall.Base.{◌≡◌, refl, Bool, true, ◌&&◌, not, ◌==◌, none, some, List, [], ◌∷◌, arith, contains}
use skall.Bytes.{Bytes, Bytes-eq, lit, trim_space, bytes_le}
use skall.Dict.{get, size}
use skall.Protocol.Message.{Message, type_chat}
use skall.Groups.State.{Manager, Ids, new_manager, duplicate_message}
use skall.Groups.Methods.{create_group, add_member, view_members}
use skall.Groups.Routing.{admit_message, admit_to, refused, receives, deliver_message}
use skall.Groups.Invariant.{IsConsistent}
use skall.Groups.Membership.{member_of}
use skall.Base.{keep}
use skall.Dict.{keys}
use skall.Dict.Sort.{sort}
use skall.Bytes.{bytes_eq}
use skall.Protocol.Message.{is_blank}
use skall.Groups.State.{GroupMember}
use skall.Groups.Reach.{Step, Reach, Reach-IsConsistent}
use skall.Groups.Delivery.{connected_to, delivers_to, deliver_message_iff, admit_message_twice}

abbrev g : Bytes
g = lit "g"

abbrev empty_group : Manager
empty_group = (create_group new_manager 1 g (lit "team")).0

abbrev with_ann : Manager
with_ann = (add_member empty_group 2 g (lit "ann")).0

abbrev with_bob : Manager
with_bob = (add_member with_ann 3 (lit " g ") (lit "bob ")).0

with_bob-Reach : Reach with_bob
with_bob-Reach =
    Reach.next
      (Reach.next (Reach.next Reach.start (Step.create 1 g (lit "team")))
        (Step.add 2 g (lit "ann")))
      (Step.add 3 (lit " g ") (lit "bob "))

abbrev hello : Message
hello = record {
  version = 1;
  id = lit "7";
  type = type_chat;
  sender_id = lit "ann";
  recipient_id = [];
  group_id = g;
  timestamp = 5;
  body = lit "hi";
}

abbrev padded : Message
padded = record hello { id = lit "7 " }

abbrev yes : Bytes → Bool
yes p = true

abbrev names : List Bytes
names = lit "ann" ∷ lit "bob" ∷ []

abbrev member : Bytes → GroupMember
member p = record { peer_id = p; joined_at = 2; active = true; last_seen = 2 }

abbrev team : Manager
team = record {
  groups =
      (
        g,
        record {
          id = g;
          name = lit "team";
          members = (lit "bob", member (lit "bob")) ∷ (lit "ann", member (lit "ann")) ∷ [];
          created_at = 1;
          updated_at = 3;
        },
      )
      ∷ [];
  seen = (g, (lit "6", tt) ∷ []) ∷ [];
}

Reach-IsConsistent_example : IsConsistent with_bob
Reach-IsConsistent_example = Reach-IsConsistent with_bob-Reach

deliver_message_example : contains (lit "bob") (keep (receives hello none (some yes)) names) ≡ (
    member_of (get (trim_space g) team.groups) (lit "bob")
    && not (lit "bob" == hello.sender_id)
    && connected_to none (lit "bob")
    && delivers_to (some yes) (lit "bob"))
unfolding deliver_message view_members keys sort get bytes_le trim_space bytes_eq
deliver_message_example = deliver_message_iff team hello none (some yes) (lit "bob") refl

admit_message_twice_example :
    admit_message (admit_message team [] hello).0 [] (record hello { body = lit "again" })
    ≡ ((admit_message team [] hello).0, refused duplicate_message)
unfolding admit_message admit_to is_blank get trim_space bytes_eq size
admit_message_twice_example =
    admit_message_twice team [] [] hello (record hello { body = lit "again" }) ((lit "6", tt) ∷ [])
      refl refl (omega arith) refl refl refl

abbrev ids : Ids
ids = (lit "6", tt) ∷ (lit "5", tt) ∷ []
