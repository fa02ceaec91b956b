-- ===== src/Dht/Dists.antt =====
-- The rows that ClosestPeers measures (internal/network/p2p/dht.go).
use skall.Base.{
  ℕ, zero, suc, ◌≡◌, ◌≤◌, ◌⊎◌, inr, refl, ap, ◌∙◌, true, ◌||◌, Option, none, some, List, [], ◌∷◌,
  arith, leb, take, drop, length, ◌==◌, contains, All, eq_iff, leb→le,
}
use skall.Bytes.{Bytes, Bytes-eq}
use skall.Dict.{Dict, get, has}
use skall.Dict.Sort.{sort, sort-IsSorted, images, IsSorted}
use skall.Dht.State.{AddrInfo}
use skall.Dht.Distance.{xor_key_distance, dist_found, dists_of, dist_le, infos}

-- The key of a row is the ID of its record.
abbrev pub IsKeyed : Dict Bytes AddrInfo → Type 0
IsKeyed table = (k : Bytes) (info : AddrInfo) → get k table ≡ some info → info.id ≡ k

abbrev pub id_of : AddrInfo × ℕ → Bytes
id_of d = d.0.id

abbrev pub ids : List AddrInfo → List Bytes
ids [] = []
ids (info ∷ rest) = info.id ∷ ids rest

module _ (sha256 : Bytes → Bytes) (target : Bytes) where
  abbrev pub Measured : AddrInfo × ℕ → Type 0
  Measured d = d.1 ≡ xor_key_distance sha256 target d.0.id

  dist_found-Measured :
      (found : Option AddrInfo) (dists : List (AddrInfo × ℕ))
      → All Measured dists
      → All Measured (dist_found sha256 target found dists)
  unfolding dist_found
  dist_found-Measured none dists h = h
  dist_found-Measured (some info) dists h = (refl, h)

  pub dists_of-Measured :
      (order : List Bytes) (table : Dict Bytes AddrInfo)
      → All Measured (dists_of sha256 target order table)
  unfolding dists_of
  dists_of-Measured [] table = tt
  dists_of-Measured (k ∷ order) table =
      dist_found-Measured (get k table) (dists_of sha256 target order table)
        (dists_of-Measured order table)

  contains-dist_found :
      (j k : Bytes) (table : Dict Bytes AddrInfo) (found : Option AddrInfo)
      (dists : List (AddrInfo × ℕ))
      → IsKeyed table
      → get j table ≡ found
      → has j table ≡ true
      → contains k (images id_of (dist_found sha256 target found dists))
        ≡ (j == k || contains k (images id_of dists))
  unfolding dist_found
  contains-dist_found j k table none dists keyed here there = absurd (ground (arith, here))
  contains-dist_found j k table (some info) dists keyed here there = rw (keyed j info here) refl

  pub contains-dists_of :
      (k : Bytes) (order : List Bytes) (table : Dict Bytes AddrInfo)
      → IsKeyed table
      → All (λ j. has j table ≡ true) order
      → contains k (images id_of (dists_of sha256 target order table)) ≡ contains k order
  unfolding dists_of
  contains-dists_of k [] table keyed h = refl
  contains-dists_of k (j ∷ order) table keyed h =
      contains-dist_found j k table (get j table) (dists_of sha256 target order table) keyed refl
        h.0
      ∙ ap (λ b. j == k || b) (contains-dists_of k order table keyed h.1)

  -- The row of k, which stands in ds, bounds what is at most each of them.
  le_of_contains :
      (n : ℕ) (k : Bytes) (ds : List (AddrInfo × ℕ))
      → All Measured ds
      → All (λ d. leb n d.1 ≡ true) ds
      → contains k (images id_of ds) ≡ true
      → n ≤ xor_key_distance sha256 target k
  le_of_contains n k [] m h c = absurd (ground arith)
  le_of_contains n k (d ∷ ds) m h c =
      ground (arith, m.0, h.0, le_of_contains n k ds m.1 h.1, eq_iff d.0.id k, leb→le n d.1)

  pub All-nearer :
      (k : Bytes) (ds rest : List (AddrInfo × ℕ))
      → All Measured ds
      → All Measured rest
      → All (λ x. All (λ y. dist_le x y ≡ true) rest) ds
      → contains k (images id_of rest) ≡ true
      → All
          (λ info. xor_key_distance sha256 target info.id ≤ xor_key_distance sha256 target k)
          (infos ds)
  unfolding infos
  All-nearer k [] rest m m' h c = tt
  All-nearer k (d ∷ ds) rest m m' h c =
      (rw (← m.0) (le_of_contains d.1 k rest m' h.0 c), All-nearer k ds rest m.1 m' h.1 c)

  pub contains-take-drop :
      (n : ℕ) (k : Bytes) (ds : List (AddrInfo × ℕ))
      → contains k (images id_of ds) ≡ true
      → (contains k (ids (infos (take n ds))) ≡ true)
        ⊎ (contains k (images id_of (drop n ds)) ≡ true)
  unfolding infos
  contains-take-drop zero k ds h = inr h
  contains-take-drop (suc n) k [] h = absurd (ground arith)
  contains-take-drop (suc n) k (d ∷ ds) h = ground (arith, contains-take-drop n k ds)

  length-dist_found :
      (j : Bytes) (table : Dict Bytes AddrInfo) (found : Option AddrInfo)
      (dists : List (AddrInfo × ℕ))
      → get j table ≡ found
      → has j table ≡ true
      → length (dist_found sha256 target found dists) ≡ suc (length dists)
  unfolding dist_found
  length-dist_found j table none dists here there = absurd (ground (arith, here))
  length-dist_found j table (some info) dists here there = refl

  pub length-dists_of :
      (order : List Bytes) (table : Dict Bytes AddrInfo)
      → All (λ j. has j table ≡ true) order
      → length (dists_of sha256 target order table) ≡ length order
  unfolding dists_of
  length-dists_of [] table h = refl
  length-dists_of (j ∷ order) table h =
      length-dist_found j table (get j table) (dists_of sha256 target order table) refl h.0
      ∙ ap suc (length-dists_of order table h.1)

pub length-infos : (ds : List (AddrInfo × ℕ)) → length (infos ds) ≡ length ds
unfolding infos
length-infos [] = refl
length-infos (d ∷ ds) = ap suc (length-infos ds)

pub sort_dists-IsSorted : (ds : List (AddrInfo × ℕ)) → IsSorted dist_le (sort dist_le ds)
sort_dists-IsSorted = sort-IsSorted dist_le (λ a b. ground arith) (λ a b c p q. ground arith)
