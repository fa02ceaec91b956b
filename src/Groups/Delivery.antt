-- ===== src/Groups/Delivery.antt =====
-- RouteGroupMessage of internal/groups/group.go: its deliveries, and its second look at an id.
use skall.Base.{
  suc, ◌≡◌, ◌≢◌, ◌≤◌, refl, Bool, true, false, ◌&&◌, not, ◌==◌, Option, none, some, List, arith,
  eq_iff, eq_refl, contains, keep, contains-keep, ok, ◌∙◌, ap,
}
use skall.Bytes.{Bytes, Bytes-eq, trim_space}
use skall.Dict.{get, has, put, size, get-put_self, has-put, size-put}
use skall.Protocol.Message.{Message, is_blank}
use skall.Groups.State.{Manager, Ids, max_seen_per_group, duplicate_message}
use skall.Groups.Methods.{view_members}
use skall.Groups.Membership.{member_of, view_members_lem}
use skall.Groups.Routing.{
  admitted, refused, admit_message, admit_to, prune_seen, receives, deliver_message, is_duplicate,
  duplicate_trimmed,
}

deliver_message_ok :
    (m : Manager) (msg : Message) (connected deliver : Option (Bytes → Bool)) {names : List Bytes}
    → deliver_message m msg connected deliver ≡ ok names
    → (members : List Bytes) × (view_members m msg.group_id ≡ ok members)
      × (names ≡ keep (receives msg connected deliver) members)
unfolding deliver_message
deliver_message_ok m msg connected deliver h = ground arith

-- What the caller's two functions say of a peer; nil means that all are connected, and that nothing is
-- delivered.
abbrev pub connected_to : Option (Bytes → Bool) → Bytes → Bool
connected_to none p = true
connected_to (some c) p = c p

abbrev pub delivers_to : Option (Bytes → Bool) → Bytes → Bool
delivers_to none p = false
delivers_to (some d) p = d p

receives_lem :
    (msg : Message) (connected deliver : Option (Bytes → Bool)) (p : Bytes)
    → receives msg connected deliver p
      ≡ (not (p == msg.sender_id) && connected_to connected p && delivers_to deliver p)
unfolding receives
receives_lem msg none none p = refl
receives_lem msg none (some d) p = refl
receives_lem msg (some c) none p = refl
receives_lem msg (some c) (some d) p = refl

-- The members to which a routed message went: exactly the members of the group, as the group is
-- when the loop runs, that are not the sender, are connected, and whose delivery did not fail.
pub deliver_message_iff :
    (m : Manager) (msg : Message) (connected deliver : Option (Bytes → Bool)) {names : List Bytes}
    (p : Bytes)
    → deliver_message m msg connected deliver ≡ ok names
    → contains p names ≡ (
        member_of (get (trim_space msg.group_id) m.groups) p
        && not (p == msg.sender_id)
        && connected_to connected p
        && delivers_to deliver p)
deliver_message_iff m msg connected deliver p h =
    let (members, viewed, e) = deliver_message_ok m msg connected deliver h in
    rw e (
      contains-keep (receives msg connected deliver) p members
      ∙ ground (
        arith,
        (view_members_lem m msg.group_id viewed).1 p,
        receives_lem msg connected deliver p,
      ))

-- The sender never gets its own message back.
receives_sender :
    (msg : Message) (connected deliver : Option (Bytes → Bool))
    → receives msg connected deliver msg.sender_id ≡ false
unfolding receives
receives_sender msg connected deliver = ground (arith, eq_refl msg.sender_id)

admit_to_ok :
    (m : Manager) (order : List Bytes) (msg : Message) (o : Option Ids)
    → (admit_to m order msg o).1 ≡ admitted
    → (s : Ids) × (o ≡ some s)
      × (has msg.id s ≡ false)
      × ((admit_to m order msg o).0
          ≡ record m { seen = put msg.group_id (prune_seen order (put msg.id tt s)) m.seen })
unfolding admit_to
admit_to_ok m order msg none h = absurd (ground arith)
admit_to_ok m order msg (some s) h = (s, refl, ground arith, ground arith)

admit_message_ok :
    (m : Manager) (order : List Bytes) (msg : Message)
    → (admit_message m order msg).1 ≡ admitted
    → (s : Ids) × (get msg.group_id m.seen ≡ some s)
      × (has msg.id s ≡ false)
      × ((admit_message m order msg).0
          ≡ record m { seen = put msg.group_id (prune_seen order (put msg.id tt s)) m.seen })
      × (is_blank msg.group_id ≡ false)
      × (is_blank msg.id ≡ false)
      × (has msg.group_id m.groups ≡ true)
unfolding admit_message
admit_message_ok m order msg h =
    let at : (admit_to m order msg (get msg.group_id m.seen)).1 ≡ admitted = ground arith in
    let (s, there, fresh, e) = admit_to_ok m order msg (get msg.group_id m.seen) at in
    (s, there, fresh, ground (arith, e), ground arith, ground arith, ground arith)

prune_seen_small :
    (order : List Bytes) (id : Bytes) (s : Ids)
    → suc (size s) ≤ max_seen_per_group
    → prune_seen order (put id tt s) ≡ put id tt s
unfolding prune_seen
prune_seen_small order id s h = ground (arith, size-put id tt s)

admit_to_again :
    (m : Manager) (order : List Bytes) (msg : Message) (s : Ids)
    → has msg.id s ≡ true
    → admit_to m order msg (some s) ≡ (m, refused duplicate_message)
unfolding admit_to
admit_to_again m order msg s h = ground arith

refused_again :
    (m : Manager) (order : List Bytes) (msg : Message) (s : Ids)
    → get msg.group_id m.seen ≡ some s
    → has msg.id s ≡ true
    → is_blank msg.group_id ≡ false
    → is_blank msg.id ≡ false
    → is_blank msg.sender_id ≡ false
    → has msg.group_id m.groups ≡ true
    → admit_message m order msg ≡ (m, refused duplicate_message)
unfolding admit_message
refused_again m order msg s there seen b1 b2 b3 grp =
    ground (arith, admit_to_again m order msg s seen)

-- While the group's seen set is below its cap, an id that was routed is refused the next time,
-- whoever sends it and with whatever body, and the refusal changes nothing.
pub admit_message_twice :
    (m : Manager) (order order' : List Bytes) (msg again : Message) (s : Ids)
    → (admit_message m order msg).1 ≡ admitted
    → get msg.group_id m.seen ≡ some s
    → suc (size s) ≤ max_seen_per_group
    → again.group_id ≡ msg.group_id
    → again.id ≡ msg.id
    → is_blank again.sender_id ≡ false
    → admit_message (admit_message m order msg).0 order' again
      ≡ ((admit_message m order msg).0, refused duplicate_message)
admit_message_twice m order order' msg again s h there fits eg ei sender =
    let (s', there', fresh, e, b1, b2, grp) = admit_message_ok m order msg h in
    let same : s' ≡ s = ground (arith, there, there') in
    let small = prune_seen_small order msg.id s fits in
    let after : (admit_message m order msg).0
        ≡ record m { seen = put msg.group_id (put msg.id tt s) m.seen } =
      ground (arith, e, same, small) in
    rw after (
      refused_again (record m { seen = put msg.group_id (put msg.id tt s) m.seen }) order' again
        (put msg.id tt s) (rw eg (get-put_self msg.group_id (put msg.id tt s) m.seen))
        (rw ei (ground (arith, has-put msg.id msg.id tt s, eq_refl msg.id))) (rw eg b1) (rw ei b2)
        sender (rw eg grp))

-- IsDuplicate trims the id that it is asked about and RouteGroupMessage does not trim the id that it
-- notes: an id with white space at an end is routed and, by its own spelling, not a duplicate.
is_duplicate-admit_message_untrimmed :
    (m : Manager) (order : List Bytes) (msg : Message) (s : Ids)
    → (admit_message m order msg).1 ≡ admitted
    → get msg.group_id m.seen ≡ some s
    → suc (size s) ≤ max_seen_per_group
    → trim_space msg.group_id ≡ msg.group_id
    → trim_space msg.id ≢ msg.id
    → has (trim_space msg.id) s ≡ false
    → is_duplicate (admit_message m order msg).0 msg.group_id msg.id ≡ false
unfolding is_duplicate duplicate_trimmed
is_duplicate-admit_message_untrimmed m order msg s h there fits tg ti fresh =
    let (s', there', _, e, _, _, _) = admit_message_ok m order msg h in
    let same : s' ≡ s = ground (arith, there, there') in
    let after : get (trim_space msg.group_id) (admit_message m order msg).0.seen
        ≡ some (put msg.id tt s) =
      rw e (
        rw tg (
          get-put_self msg.group_id _ m.seen
          ∙ ap (λ (t : Ids). some t)
              (ap (λ (t : Ids). prune_seen order (put msg.id tt t)) same
                ∙ prune_seen_small order msg.id s fits))) in
    ground
      (arith, after, has-put (trim_space msg.id) msg.id tt s, eq_iff msg.id (trim_space msg.id))
