-- ===== src/Groups/Pruning.antt =====
-- pruneSeen of internal/groups/group.go: how many ids stay.
use skall.Base.{
  ◌&&◌, leb, if◌then◌else◌, ℕ, zero, suc, ◌+◌, ◌-◌, ◌/◌, ◌≡◌, ◌≤◌, true, List, [], ◌∷◌, arith,
}
use skall.Bytes.{Bytes, Bytes-eq}
use skall.Dict.{
  has, put, delete, size, IsMap, get-delete, put-IsMap, delete-IsMap, size-put, size-delete,
}
use skall.Groups.State.{Ids, max_seen_per_group}
use skall.Groups.Routing.{evict, prune_seen}
use skall.Groups.Invariant.{IsSeenSet}

-- The order is one in which a range yields the keys: each key of the set, once.
abbrev pub Yields : List Bytes → Ids → Type 0
Yields [] s = size s ≡ 0
Yields (k ∷ order) s = (has k s ≡ true) × Yields order (delete k s)

evict-IsMap : (n : ℕ) (order : List Bytes) (s : Ids) → IsMap s → IsMap (evict n order s)
unfolding evict
evict-IsMap zero order s h = h
evict-IsMap (suc n) [] s h = h
evict-IsMap (suc n) (k ∷ order) s h = evict-IsMap n order (delete k s) (delete-IsMap k s h)

size-evict :
    (n : ℕ) (order : List Bytes) (s : Ids)
    → IsMap s
    → Yields order s
    → n ≤ size s
    → size (evict n order s) + n ≡ size s
unfolding evict
size-evict zero order s h y p = omega arith
size-evict (suc n) [] s h y p = absurd (omega arith)
size-evict (suc n) (k ∷ order) s h y p =
    let e : size s ≡ suc (size (delete k s)) = ground (arith, size-delete k s h) in
    omega (arith, size-evict n order (delete k s) (delete-IsMap k s h) y.1 (omega arith))

-- Nothing is added, and what stays has been there.
evict_subset :
    (n : ℕ) (order : List Bytes) (s : Ids) (j : Bytes)
    → has j (evict n order s) ≡ true
    → has j s ≡ true
unfolding evict
evict_subset zero order s j h = h
evict_subset (suc n) [] s j h = h
evict_subset (suc n) (k ∷ order) s j h =
    let before = evict_subset n order (delete k s) j h in ground (arith, get-delete j k s)

-- Up to the cap nothing is dropped; above it half of the set, rounded down, goes, whatever the order
-- is in which the range yields the ids, and no id appears that was not there.
size-prune_seen :
    (order : List Bytes) (s : Ids) (j : Bytes)
    → IsMap s
    → Yields order s
    → (size (prune_seen order s)
        ≡ (if leb (size s) max_seen_per_group then size s else size s - size s / 2))
      × (has j (prune_seen order s) ≡ (has j (prune_seen order s) && has j s))
unfolding prune_seen
size-prune_seen order s j h y = (
  ground (arith, size-evict (size s / 2) order s h y),
  ground (arith, evict_subset (size s / 2) order s j),
)

-- An insertion and the pruning after it leave a set within the cap.
pub prune_seen-put :
    (order : List Bytes) (id : Bytes) (s : Ids)
    → Yields order (put id tt s)
    → IsSeenSet s
    → IsSeenSet (prune_seen order (put id tt s))
unfolding prune_seen
prune_seen-put order id s y h =
    let t = put id tt s in
    let is_map : IsMap t = put-IsMap id tt s h.ids_map in
    record {
      ids_map = ground (arith, is_map, evict-IsMap (size t / 2) order t is_map);
      bounded =
          ground (arith, h.bounded, size-put id tt s, size-evict (size t / 2) order t is_map y);
    }
