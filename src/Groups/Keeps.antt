-- ===== src/Groups/Keeps.antt =====
-- The methods of the manager and its invariant (internal/groups/group.go).
use skall.Base.{
  ℕ, ◌≡◌, refl, true, false, not, Option, none, some, List, arith, Result, ok, err, sym, if_intro,
}
use skall.Bytes.{Bytes, Bytes-eq, is_empty, trim_space, trim_space_idem}
use skall.Dict.{empty, get, has, put, size, put-IsMap, delete-IsMap}
use skall.Protocol.Message.{Message, is_blank}
use skall.Groups.State.{Manager, Group, GroupError, Ids}
use skall.Groups.Methods.{
  create_group, add_member, remove_member, delete_group, create_trimmed, find_group, add_trimmed,
  add_found, remove_found, remove_trimmed, delete_trimmed,
}
use skall.Groups.Routing.{
  prune_seen, mark_message_seen, mark_trimmed, admit_message, admit_to, Admission,
}
use skall.Groups.Pruning.{Yields, prune_seen-put}
use skall.Groups.Invariant.{
  IsSeenSet, IsConsistent, write_both, write_group, write_seen, delete_both,
}

empty-IsSeenSet : IsSeenSet empty
unfolding size
empty-IsSeenSet = record { ids_map = tt; bounded = omega arith }

abbrev Good : {A : Type 0} → Manager × A → Type 0
Good r = IsConsistent r.0

create_trimmed-IsConsistent :
    (m : Manager) (now : ℕ) (id name : Bytes)
    → trim_space id ≡ id
    → IsConsistent m
    → IsConsistent (create_trimmed m now id name).0
unfolding create_trimmed
create_trimmed-IsConsistent m now id name t c =
    if_intro (Good {A = Result GroupError Group}) (is_empty id) _ _ (λ e. c)
      λ e.
        if_intro (Good {A = Result GroupError Group}) (is_empty name) _ _ (λ e'. c)
          λ e'.
            if_intro (Good {A = Result GroupError Group}) (has id m.groups) _ _ (λ h. c)
              λ h.
                write_both m id _ empty c
                  (record { own_key = refl; trimmed = t; named = e; members_map = tt })
                  empty-IsSeenSet

pub find_group_ok :
    (m : Manager) (id peer : Bytes) (g : Group)
    → find_group m id peer ≡ ok g
    → (get id m.groups ≡ some g) × (is_empty id ≡ false) × (is_empty peer ≡ false)
unfolding find_group
find_group_ok m id peer g h = ground arith

add_found-IsConsistent :
    (m : Manager) (now : ℕ) (id peer : Bytes) (r : Result GroupError Group)
    → ((g : Group) → r ≡ ok g → get id m.groups ≡ some g)
    → IsConsistent m
    → IsConsistent (add_found m now id peer r).0
unfolding add_found
add_found-IsConsistent m now id peer (err e) found c = c
add_found-IsConsistent m now id peer (ok g) found c =
    let there = found g refl in
    let old = c.group_at id g there in
    if_intro (Good {A = Option GroupError}) (has peer g.members) _ _ (λ h. c)
      λ h. write_group m id _ c (ground arith) (record {
        own_key = old.own_key;
        trimmed = old.trimmed;
        named = old.named;
        members_map = put-IsMap peer _ g.members old.members_map;
      })

remove_found-IsConsistent :
    (m : Manager) (now : ℕ) (id peer : Bytes) (r : Result GroupError Group)
    → ((g : Group) → r ≡ ok g → get id m.groups ≡ some g)
    → IsConsistent m
    → IsConsistent (remove_found m now id peer r).0
unfolding remove_found
remove_found-IsConsistent m now id peer (err e) found c = c
remove_found-IsConsistent m now id peer (ok g) found c =
    let there = found g refl in
    let old = c.group_at id g there in
    if_intro (Good {A = Option GroupError}) (not (has peer g.members)) _ _ (λ h. c)
      λ h. write_group m id _ c (ground arith) (record {
        own_key = old.own_key;
        trimmed = old.trimmed;
        named = old.named;
        members_map = delete-IsMap peer g.members old.members_map;
      })

delete_trimmed-IsConsistent :
    (m : Manager) (id : Bytes) → IsConsistent m → IsConsistent (delete_trimmed m id).0
unfolding delete_trimmed
delete_trimmed-IsConsistent m id c =
    if_intro (Good {A = Option GroupError}) (is_empty id) _ _ (λ e. c)
      λ e.
        if_intro (Good {A = Option GroupError}) (has id m.groups) _ _ (λ h. delete_both m id c)
          λ h. c

has_of_paired :
    (m : Manager) (k : Bytes)
    → IsConsistent m
    → has k m.groups ≡ true
    → (s : Ids) × (get k m.seen ≡ some s)
has_of_paired m k c h = let e = c.paired k in ground arith

-- MarkMessageSeen and RouteGroupMessage write a seen set that one id is added to and that is pruned.
seen_written-IsConsistent :
    (m : Manager) (order : List Bytes) (k id : Bytes) (s : Ids)
    → IsConsistent m
    → has k m.groups ≡ true
    → get k m.seen ≡ some s
    → Yields order (put id tt s)
    → IsConsistent (record m { seen = put k (prune_seen order (put id tt s)) m.seen })
seen_written-IsConsistent m order k id s c there e y =
    write_seen m k _ c there (prune_seen-put order id s y (c.seen_at k s e))

mark_trimmed-IsConsistent :
    (m : Manager) (order : List Bytes) (k id : Bytes)
    → ((s : Ids) → get k m.seen ≡ some s → Yields order (put id tt s))
    → IsConsistent m
    → IsConsistent (mark_trimmed m order k id).0
unfolding mark_trimmed
mark_trimmed-IsConsistent m order k id y c =
    if_intro (Good {A = Option GroupError}) (is_empty k) _ _ (λ e. c)
      λ e.
        if_intro (Good {A = Option GroupError}) (is_empty id) _ _ (λ e'. c)
          λ e'.
            if_intro (Good {A = Option GroupError}) (not (has k m.groups)) _ _ (λ h. c)
              λ h.
                let there : has k m.groups ≡ true = ground arith in
                let (s, e) = has_of_paired m k c there in
                rw e (seen_written-IsConsistent m order k id s c there e (y s e))

admit_to-IsConsistent :
    (m : Manager) (order : List Bytes) (msg : Message) (o : Option Ids)
    → o ≡ get msg.group_id m.seen
    → ((s : Ids) → get msg.group_id m.seen ≡ some s → Yields order (put msg.id tt s))
    → has msg.group_id m.groups ≡ true
    → IsConsistent m
    → IsConsistent (admit_to m order msg o).0
unfolding admit_to
admit_to-IsConsistent m order msg none e y there c = c
admit_to-IsConsistent m order msg (some s) e y there c =
    if_intro (Good {A = Admission}) (has msg.id s) _ _ (λ h. c)
      λ h. seen_written-IsConsistent m order msg.group_id msg.id s c there (sym e) (y s (sym e))

module _ {m : Manager} (c : IsConsistent m) where
  -- CreateGroup keeps the invariant, on every branch.
  pub create_group-IsConsistent :
      (now : ℕ) (id name : Bytes) → IsConsistent (create_group m now id name).0
  unfolding create_group
  create_group-IsConsistent now id name =
      create_trimmed-IsConsistent m now (trim_space id) (trim_space name) (trim_space_idem id) c

  pub add_member-IsConsistent :
      (now : ℕ) (id peer : Bytes) → IsConsistent (add_member m now id peer).0
  unfolding add_member add_trimmed
  add_member-IsConsistent now id peer =
      add_found-IsConsistent m now (trim_space id) (trim_space peer) _
        (λ g h. (find_group_ok m (trim_space id) (trim_space peer) g h).0) c

  pub remove_member-IsConsistent :
      (now : ℕ) (id peer : Bytes) → IsConsistent (remove_member m now id peer).0
  unfolding remove_member remove_trimmed
  remove_member-IsConsistent now id peer =
      remove_found-IsConsistent m now (trim_space id) (trim_space peer) _
        (λ g h. (find_group_ok m (trim_space id) (trim_space peer) g h).0) c

  pub delete_group-IsConsistent : (id : Bytes) → IsConsistent (delete_group m id).0
  unfolding delete_group
  delete_group-IsConsistent id = delete_trimmed-IsConsistent m (trim_space id) c

  pub mark_message_seen-IsConsistent :
      (order : List Bytes) (id msg_id : Bytes)
      → ((s : Ids)
          → get (trim_space id) m.seen ≡ some s
          → Yields order (put (trim_space msg_id) tt s))
      → IsConsistent (mark_message_seen m order id msg_id).0
  unfolding mark_message_seen
  mark_message_seen-IsConsistent order id msg_id y =
      mark_trimmed-IsConsistent m order (trim_space id) (trim_space msg_id) y c

  pub admit_message-IsConsistent :
      (order : List Bytes) (msg : Message)
      → ((s : Ids) → get msg.group_id m.seen ≡ some s → Yields order (put msg.id tt s))
      → IsConsistent (admit_message m order msg).0
  unfolding admit_message
  admit_message-IsConsistent order msg y =
      if_intro (Good {A = Admission}) (is_blank msg.group_id) _ _ (λ e. c)
        λ e.
          if_intro (Good {A = Admission}) (is_blank msg.id) _ _ (λ e. c)
            λ e.
              if_intro (Good {A = Admission}) (is_blank msg.sender_id) _ _ (λ e. c)
                λ e.
                  if_intro (Good {A = Admission}) (not (has msg.group_id m.groups)) _ _ (λ e. c)
                    λ h.
                      admit_to-IsConsistent m order msg (get msg.group_id m.seen) refl y
                        (ground arith) c
