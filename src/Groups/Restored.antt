-- ===== src/Groups/Restored.antt =====
-- What LoadFromStore restores, and what it leaves alone.
use skall.Base.{
  ◌≡◌, refl, ◌∙◌, Bool, true, false, ◌||◌, ◌&&◌, Option, none, some, List, [], ◌∷◌, arith, eq_iff,
  ◌==◌, Result, ok, err,
}
use skall.Bytes.{Bytes, Bytes-eq, trim_space}
use skall.Dict.{Dict, empty, get, has, get-put, has-put}
use skall.Groups.State.{Manager, Group, GroupMember}
use skall.Groups.Methods.{get_group}
use skall.Storage.Rows.{Times, Store, StoredGroup, GroupMembership}
use skall.Storage.Errors.{StoreError}
use skall.Storage.Membership.{list_groups, list_group_members}
use skall.Groups.Persistence.{
  restore_member, restore_members, restore_group, load_group, load_groups, load_listed,
  load_from_store,
}

-- Whether some row says that the peer is an active member.
abbrev pub has_active : Bytes → List GroupMembership → Bool
has_active p [] = false
has_active p (m ∷ rows) = (m.active && m.peer_id == p) || has_active p rows

has-restore_member :
    (m : GroupMembership) (members : Dict Bytes GroupMember) (p : Bytes)
    → has p (restore_member m members) ≡ (has p members || (m.active && m.peer_id == p))
unfolding restore_member
has-restore_member m members p =
    let member : GroupMember = record {
      peer_id = m.peer_id;
      joined_at = m.joined_at;
      active = true;
      last_seen = m.last_seen;
    } in
    ground (arith, has-put p m.peer_id member members, eq_iff m.peer_id p)

-- Restoring adds exactly the peers with an active row: no former member comes back, and no member that
-- is there goes.
restore_members_lem :
    (rows : List GroupMembership) (members : Dict Bytes GroupMember) (p : Bytes)
    → has p (restore_members rows members) ≡ (has p members || has_active p rows)
unfolding restore_members
restore_members_lem [] members p = ground arith
restore_members_lem (m ∷ rows) members p =
    ground
      (arith, restore_members_lem rows (restore_member m members) p, has-restore_member m members p)

-- The group and the seen set under one key.
abbrev SameAt : Bytes → Manager → Manager → Type 0
SameAt k m n = (get k n.groups ≡ get k m.groups) × (get k n.seen ≡ get k m.seen)

module _ (times : Times) where
  load_group-SameAt :
      (fault : Bytes → Option Bytes) (s : Store) (sg : StoredGroup) (m : Manager) (k : Bytes)
      (found : Option Group) {g : Group}
      → trim_space k ≡ k
      → get k m.groups ≡ some g
      → get (trim_space sg.group_id) m.groups ≡ found
      → SameAt k m (load_group times fault s sg found m)
  unfolding load_group
  load_group-SameAt fault s sg m k (some h) t there same = (refl, refl)
  load_group-SameAt fault s sg m k none t there same =
      let group = restore_group sg (list_group_members times (fault sg.group_id) s sg.group_id) in
      (
        ground (arith, get-put k sg.group_id group m.groups, eq_iff sg.group_id k),
        ground (arith, get-put k sg.group_id empty m.seen, eq_iff sg.group_id k),
      )

  load_groups-SameAt :
      (fault : Bytes → Option Bytes) (s : Store) (groups : List StoredGroup) (m : Manager)
      (k : Bytes) {g : Group}
      → trim_space k ≡ k
      → get k m.groups ≡ some g
      → SameAt k m (load_groups times fault s groups m)
  unfolding load_groups get_group
  load_groups-SameAt fault s [] m k t there = (refl, refl)
  load_groups-SameAt fault s (sg ∷ rest) m k t there =
      let (eg, es) =
        load_group-SameAt fault s sg m k (get (trim_space sg.group_id) m.groups) t there refl in
      let (fg, fs) =
        load_groups-SameAt fault s rest
          (load_group times fault s sg (get (trim_space sg.group_id) m.groups) m) k t
          (eg ∙ there) in
      (fg ∙ eg, fs ∙ es)

  load_listed-SameAt :
      (faults : Bytes → Option Bytes) (s : Store) (r : Result StoreError (List StoredGroup))
      (m : Manager) (k : Bytes) {g : Group}
      → trim_space k ≡ k
      → get k m.groups ≡ some g
      → (get k (load_listed times faults s r m).0.groups ≡ some g)
        × (get k (load_listed times faults s r m).0.seen ≡ get k m.seen)
  unfolding load_listed
  load_listed-SameAt faults s (err e) m k t there = (there, refl)
  load_listed-SameAt faults s (ok groups) m k t there =
      let (eg, es) = load_groups-SameAt faults s groups m k t there in (eg ∙ there, es)

  -- LoadFromStore never overwrites a group that the manager has under a trimmed id, nor its seen set,
  -- whatever the store holds and whatever the database answers.
  load_from_store_keeps :
      (fault : Option Bytes) (faults : Bytes → Option Bytes) (s : Store) (m : Manager) (k : Bytes)
      {g : Group}
      → trim_space k ≡ k
      → get k m.groups ≡ some g
      → let m' = (load_from_store times fault faults s m).0 in
        (get k m'.groups ≡ some g) × (get k m'.seen ≡ get k m.seen)
  unfolding load_from_store
  load_from_store_keeps fault faults s m k t there =
      load_listed-SameAt faults s (list_groups times fault s) m k t there
