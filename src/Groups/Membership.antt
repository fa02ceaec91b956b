-- ===== src/Groups/Membership.antt =====
-- Members: what AddMember, RemoveMember and DeleteGroup change, as IsMember and ViewMembers show it.
use skall.Base.{
  ℕ, ◌≡◌, refl, Bool, true, false, ◌||◌, ◌&&◌, not, Option, none, some, List, arith, eq_iff, ◌==◌,
  ◌∙◌, contains, Result, ok, err,
}
use skall.Bytes.{Bytes, Bytes-eq, is_empty, trim_space, bytes_le, bytes_le_total, bytes_le_trans}
use skall.Dict.{get, has, keys, get-put, has-put, has-delete, contains-keys}
use skall.Dict.Sort.{sort, IsSorted, sort-IsSorted, contains-sort}
use skall.Groups.State.{Manager, Group, GroupError}
use skall.Groups.Keeps.{find_group_ok}
use skall.Groups.Methods.{
  add_member, remove_member, view_members, is_member, find_group, add_trimmed, with_member,
  without_member, add_found, remove_trimmed, remove_found, member_trimmed,
}

-- IsMember on ids that are trimmed and not empty: a look-up in the group's members.
abbrev pub member_of : Option Group → Bytes → Bool
member_of none p = false
member_of (some g) p = has p g.members

pub has-with_member :
    (now : ℕ) (peer p : Bytes) (g : Group)
    → has p (with_member now peer g).members ≡ (peer == p || has p g.members)
has-with_member now peer p g = has-put p peer _ g.members

pub has-without_member :
    (now : ℕ) (peer p : Bytes) (g : Group)
    → has p (without_member now peer g).members ≡ (not (peer == p) && has p g.members)
has-without_member now peer p g = has-delete p peer g.members

module _ (m : Manager) (now : ℕ) (id peer k p : Bytes) where
  add_found_members :
      (r : Result GroupError Group)
      → ((g : Group) → r ≡ ok g → get id m.groups ≡ some g)
      → (add_found m now id peer r).1 ≡ none
      → (member_of (get id m.groups) peer ≡ false)
        × (member_of (get k (add_found m now id peer r).0.groups) p
            ≡ (member_of (get k m.groups) p || (id == k && peer == p)))
  unfolding add_found
  add_found_members (err e) found h = absurd (ground arith)
  add_found_members (ok g) found h = ground (
    arith,
    found g refl,
    get-put k id (with_member now peer g) m.groups,
    has-with_member now peer p g,
    eq_iff id k,
  )

  remove_found_members :
      (r : Result GroupError Group)
      → ((g : Group) → r ≡ ok g → get id m.groups ≡ some g)
      → (remove_found m now id peer r).1 ≡ none
      → (member_of (get id m.groups) peer ≡ true)
        × (member_of (get k (remove_found m now id peer r).0.groups) p
            ≡ (member_of (get k m.groups) p && not (id == k && peer == p)))
  unfolding remove_found
  remove_found_members (err e) found h = absurd (ground arith)
  remove_found_members (ok g) found h = ground (
    arith,
    found g refl,
    get-put k id (without_member now peer g) m.groups,
    has-without_member now peer p g,
    eq_iff id k,
  )

add_found_ok :
    (m : Manager) (now : ℕ) (id peer : Bytes) (r : Result GroupError Group)
    → (add_found m now id peer r).1 ≡ none
    → (g : Group) × (r ≡ ok g)
unfolding add_found
add_found_ok m now id peer (err e) h = absurd (ground arith)
add_found_ok m now id peer (ok g) h = (g, refl)

remove_found_ok :
    (m : Manager) (now : ℕ) (id peer : Bytes) (r : Result GroupError Group)
    → (remove_found m now id peer r).1 ≡ none
    → (g : Group) × (r ≡ ok g)
unfolding remove_found
remove_found_ok m now id peer (err e) h = absurd (ground arith)
remove_found_ok m now id peer (ok g) h = (g, refl)

is_member_lem :
    (m : Manager) (k p : Bytes)
    → is_empty (trim_space k) ≡ false
    → is_empty (trim_space p) ≡ false
    → is_member m k p ≡ member_of (get (trim_space k) m.groups) (trim_space p)
unfolding is_member member_trimmed
is_member_lem m k p e f = ground arith

module _ (m : Manager) (now : ℕ) (id peer k p : Bytes) where
  -- An AddMember that returns nil added a peer that was no member; it adds that one membership, and
  -- no other peer of any group sees a change.
  is_member-add_member :
      is_empty (trim_space k) ≡ false
      → is_empty (trim_space p) ≡ false
      → (add_member m now id peer).1 ≡ none
      → (is_member m id peer ≡ false)
        × (is_member (add_member m now id peer).0 k p ≡ (
            is_member m k p || (trim_space id == trim_space k && trim_space peer == trim_space p)))
  unfolding add_member add_trimmed
  is_member-add_member e f h =
      let (id', peer') : Bytes × Bytes = (trim_space id, trim_space peer) in
      let r = find_group m id' peer' in
      let found = λ (g : Group). find_group_ok m id' peer' g in
      let (g, ok_g) = add_found_ok m now id' peer' r h in
      let changed =
        add_found_members m now id' peer' (trim_space k) (trim_space p) r (λ g h. (found g h).0)
          h in
      ground (
        arith,
        found g ok_g,
        changed,
        is_member_lem m id peer,
        is_member_lem m k p e f,
        is_member_lem (add_member m now id peer).0 k p e f,
      )

  -- A RemoveMember or LeaveGroup that returns nil removed a peer that was a member; it ends that one
  -- membership, and no other peer of any group sees a change.
  is_member-remove_member :
      is_empty (trim_space k) ≡ false
      → is_empty (trim_space p) ≡ false
      → (remove_member m now id peer).1 ≡ none
      → (is_member m id peer ≡ true)
        × (is_member (remove_member m now id peer).0 k p ≡ (
            is_member m k p
            && not (trim_space id == trim_space k && trim_space peer == trim_space p)))
  unfolding remove_member remove_trimmed
  is_member-remove_member e f h =
      let (id', peer') : Bytes × Bytes = (trim_space id, trim_space peer) in
      let r = find_group m id' peer' in
      let found = λ (g : Group). find_group_ok m id' peer' g in
      let (g, ok_g) = remove_found_ok m now id' peer' r h in
      let changed =
        remove_found_members m now id' peer' (trim_space k) (trim_space p) r (λ g h. (found g h).0)
          h in
      ground (
        arith,
        found g ok_g,
        changed,
        is_member_lem m id peer,
        is_member_lem m k p e f,
        is_member_lem (remove_member m now id peer).0 k p e f,
      )

view_members_ok :
    (m : Manager) (k : Bytes) {names : List Bytes}
    → view_members m k ≡ ok names
    → (g : Group) × (get (trim_space k) m.groups ≡ some g)
      × (names ≡ sort bytes_le (keys g.members))
unfolding view_members
view_members_ok m k h = ground arith

-- ViewMembers returns exactly the members of the group, sorted by bytes.
pub view_members_lem :
    (m : Manager) (k : Bytes) {names : List Bytes}
    → view_members m k ≡ ok names
    → IsSorted bytes_le names
      × ((p : Bytes) → contains p names ≡ member_of (get (trim_space k) m.groups) p)
view_members_lem m k h =
    let (g, there, e) = view_members_ok m k h in
    (
      rw e (sort-IsSorted bytes_le bytes_le_total bytes_le_trans (keys g.members)),
      λ p. rw (e, there) (contains-sort bytes_le p (keys g.members) ∙ contains-keys p g.members),
    )
