-- ===== src/Groups/Invariant.antt =====
-- The invariant of a manager between two critical sections (internal/groups/group.go).
use skall.Base.{◌≡◌, ◌≤◌, refl, true, false, some, arith, eq_iff}
use skall.Bytes.{Bytes, Bytes-eq, is_empty, trim_space}
use skall.Dict.{
  get, has, put, delete, size, IsMap, get-empty, get-put, get-delete, put-IsMap, delete-IsMap,
}
use skall.Groups.State.{Manager, Group, Ids, new_manager, max_seen_per_group}

-- A group stands under its own id, which is trimmed and not empty.
pub record IsGroup (key : Bytes) (g : Group) : Type 0 where
  pub own_key : g.id ≡ key
  pub trimmed : trim_space key ≡ key
  pub named : is_empty key ≡ false
  pub members_map : IsMap g.members

pub record IsSeenSet (s : Ids) : Type 0 where
  pub ids_map : IsMap s
  pub bounded : size s ≤ max_seen_per_group

pub record IsConsistent (m : Manager) : Type 0 where
  pub groups_map : IsMap m.groups
  pub seen_map : IsMap m.seen
  pub paired : (k : Bytes) → has k m.groups ≡ has k m.seen
  pub group_at : (k : Bytes) (g : Group) → get k m.groups ≡ some g → IsGroup k g
  pub seen_at : (k : Bytes) (s : Ids) → get k m.seen ≡ some s → IsSeenSet s

pub new_manager-IsConsistent : IsConsistent new_manager
unfolding get
new_manager-IsConsistent = record {
  groups_map = tt;
  seen_map = tt;
  paired = λ k. refl;
  group_at = λ k g h. ground (arith, get-empty {K = Bytes} {V = Group} k);
  seen_at = λ k s h. ground (arith, get-empty {K = Bytes} {V = Ids} k);
}

-- Writing a group and its seen set together.
pub write_both :
    (m : Manager) (k : Bytes) (g : Group) (s : Ids)
    → IsConsistent m
    → IsGroup k g
    → IsSeenSet s
    → IsConsistent (record { groups = put k g m.groups; seen = put k s m.seen })
write_both m k g s c hg hs = record {
  groups_map = put-IsMap k g m.groups c.groups_map;
  seen_map = put-IsMap k s m.seen c.seen_map;
  paired = λ j. ground (arith, c.paired j, get-put j k g m.groups, get-put j k s m.seen);
  group_at = λ j x h. ground (arith, c.group_at j x, get-put j k g m.groups, eq_iff k j);
  seen_at = λ j x h. ground (arith, c.seen_at j x, get-put j k s m.seen, eq_iff k j);
}

-- Writing one group that is there already.
pub write_group :
    (m : Manager) (k : Bytes) (g : Group)
    → IsConsistent m
    → has k m.groups ≡ true
    → IsGroup k g
    → IsConsistent (record m { groups = put k g m.groups })
write_group m k g c there hg = record {
  groups_map = put-IsMap k g m.groups c.groups_map;
  seen_map = c.seen_map;
  paired = λ j. ground (arith, c.paired j, get-put j k g m.groups, eq_iff k j);
  group_at = λ j x h. ground (arith, c.group_at j x, get-put j k g m.groups, eq_iff k j);
  seen_at = c.seen_at;
}

-- Writing the seen set of a group that is there.
pub write_seen :
    (m : Manager) (k : Bytes) (s : Ids)
    → IsConsistent m
    → has k m.groups ≡ true
    → IsSeenSet s
    → IsConsistent (record m { seen = put k s m.seen })
write_seen m k s c there hs = record {
  groups_map = c.groups_map;
  seen_map = put-IsMap k s m.seen c.seen_map;
  paired = λ j. ground (arith, c.paired j, get-put j k s m.seen, eq_iff k j);
  group_at = c.group_at;
  seen_at = λ j x h. ground (arith, c.seen_at j x, get-put j k s m.seen, eq_iff k j);
}

pub delete_both :
    (m : Manager) (k : Bytes)
    → IsConsistent m
    → IsConsistent (record { groups = delete k m.groups; seen = delete k m.seen })
delete_both m k c = record {
  groups_map = delete-IsMap k m.groups c.groups_map;
  seen_map = delete-IsMap k m.seen c.seen_map;
  paired = λ j. ground (arith, c.paired j, get-delete j k m.groups, get-delete j k m.seen);
  group_at = λ j x h. ground (arith, c.group_at j x, get-delete j k m.groups, eq_iff k j);
  seen_at = λ j x h. ground (arith, c.seen_at j x, get-delete j k m.seen, eq_iff k j);
}
