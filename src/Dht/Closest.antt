-- ===== src/Dht/Closest.antt =====
-- What ClosestPeers returns (internal/network/p2p/dht.go).
use Prim.Native.Nat.{min}
use skall.Base.{
  ℕ, ◌≡◌, ◌≤◌, ◌⊎◌, inl, inr, ap, ◌∙◌, true, List, take, drop, length, length-take, contains, All,
  IsDistinct,
}
use skall.Bytes.{Bytes, Bytes-eq}
use skall.Dict.{Dict, has}
use skall.Dict.Sort.{
  sort, length-sort, IsDistinct-sort, take-le-drop, contains_image-sort, images, All-sort, All-take,
  All-drop,
}
use skall.Dht.State.{AddrInfo}
use skall.Dht.Distance.{xor_key_distance, dists_of, dist_le, closest_peers}
use skall.Dht.Dists.{
  IsKeyed, id_of, ids, Measured, dists_of-Measured, contains-dists_of, All-nearer,
  contains-take-drop, length-dists_of, length-infos, sort_dists-IsSorted,
}
use skall.Dht.Once.{
  ids-infos, IsDistinct-take, Visited, VisitedRow, All-Visited-infos, dists_of-Visited,
  IsDistinct-dists_of,
}

-- When the rows of the routing table stand under their own IDs and the range visits rows of the
-- table, none of them twice, ClosestPeers returns count of the visited peers, or all of them when there
-- are fewer, each with its record in the table and none twice; a visited peer that it does not return
-- is at least as far from the target, by XORKeyDistance, as each that it returns.
pub closest_peers_lem :
    (sha256 : Bytes → Bytes) (order : List Bytes) (table : Dict Bytes AddrInfo) (target : Bytes)
    (count : ℕ) (k : Bytes)
    → IsKeyed table
    → All (λ j. has j table ≡ true) order
    → IsDistinct order
    → contains k order ≡ true
    → (length (closest_peers sha256 order table target count) ≡ min count (length order))
      × IsDistinct (ids (closest_peers sha256 order table target count))
      × All (Visited order table) (closest_peers sha256 order table target count)
      × ((contains k (ids (closest_peers sha256 order table target count)) ≡ true)
          ⊎ All
              (λ info. xor_key_distance sha256 target info.id ≤ xor_key_distance sha256 target k)
              (closest_peers sha256 order table target count))
unfolding closest_peers
closest_peers_lem sha256 order table target count k keyed visited once there = (
  length-infos (take count sorted)
      ∙ length-take count sorted
      ∙ ap (min count)
          (length-sort dist_le dists ∙ length-dists_of sha256 target order table visited),
  rw (ids-infos (take count sorted)) (
      IsDistinct-take count sorted (
        IsDistinct-sort dist_le id_of dists
          (IsDistinct-dists_of sha256 target order table keyed visited once))),
  All-Visited-infos order table (take count sorted) (
      All-take (VisitedRow order table) count sorted (
        All-sort (VisitedRow order table) dist_le dists
          (dists_of-Visited sha256 target order table keyed))),
  elim (contains-take-drop sha256 target count k sorted in_sorted) [
    | inl here ↦ inl here
    | inr left ↦ inr (
        All-nearer sha256 target k (take count sorted) (drop count sorted)
          (All-take Dist count sorted measured) (All-drop Dist count sorted measured)
          (take-le-drop dist_le count sorted (sort_dists-IsSorted dists)) left)
  ],
)
  where
    dists : List (AddrInfo × ℕ)
    dists = dists_of sha256 target order table

    sorted : List (AddrInfo × ℕ)
    sorted = sort dist_le dists

    Dist : AddrInfo × ℕ → Type 0
    Dist = Measured sha256 target

    measured : All Dist sorted
    measured = All-sort Dist dist_le dists (dists_of-Measured sha256 target order table)

    in_sorted : contains k (images id_of sorted) ≡ true
    in_sorted =
        contains_image-sort dist_le id_of k dists
        ∙ contains-dists_of sha256 target k order table keyed visited
        ∙ there
