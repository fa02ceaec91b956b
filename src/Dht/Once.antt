-- ===== src/Dht/Once.antt =====
-- ClosestPeers measures each visited row once (internal/network/p2p/dht.go).
use skall.Base.{
  ℕ, zero, suc, ◌≡◌, refl, ap, ◌∙◌, true, false, Option, none, some, List, [], ◌∷◌, arith, take,
  contains, All, eq_iff, IsDistinct,
}
use skall.Bytes.{Bytes, Bytes-eq}
use skall.Dict.{Dict, get, has}
use skall.Dict.Sort.{images}
use skall.Dht.State.{AddrInfo}
use skall.Dht.Distance.{dist_found, dists_of, infos}
use skall.Dht.Dists.{IsKeyed, id_of, ids, contains-dists_of}

pub ids-infos : (ds : List (AddrInfo × ℕ)) → ids (infos ds) ≡ images id_of ds
unfolding infos
ids-infos [] = refl
ids-infos (d ∷ ds) = ap (λ (rest : List Bytes). d.0.id ∷ rest) (ids-infos ds)

contains-take :
    (k : Bytes) (n : ℕ) (ds : List (AddrInfo × ℕ))
    → contains k (images id_of ds) ≡ false
    → contains k (images id_of (take n ds)) ≡ false
contains-take k zero ds h = refl
contains-take k (suc n) [] h = refl
contains-take k (suc n) (d ∷ ds) h = ground (arith, contains-take k n ds)

pub IsDistinct-take :
    (n : ℕ) (ds : List (AddrInfo × ℕ))
    → IsDistinct (images id_of ds)
    → IsDistinct (images id_of (take n ds))
IsDistinct-take zero ds h = tt
IsDistinct-take (suc n) [] h = tt
IsDistinct-take (suc n) (d ∷ ds) h = (contains-take d.0.id n ds h.0, IsDistinct-take n ds h.1)

-- What is in the table and was visited.
abbrev pub Visited : List Bytes → Dict Bytes AddrInfo → AddrInfo → Type 0
Visited order table info = (get info.id table ≡ some info) × (contains info.id order ≡ true)

abbrev pub VisitedRow : List Bytes → Dict Bytes AddrInfo → AddrInfo × ℕ → Type 0
VisitedRow order table d = Visited order table d.0

pub All-Visited-infos :
    (order : List Bytes) (table : Dict Bytes AddrInfo) (ds : List (AddrInfo × ℕ))
    → All (VisitedRow order table) ds
    → All (Visited order table) (infos ds)
unfolding infos
All-Visited-infos order table [] h = tt
All-Visited-infos order table (d ∷ ds) h = (h.0, All-Visited-infos order table ds h.1)

All-Visited-later :
    (j : Bytes) (order : List Bytes) (table : Dict Bytes AddrInfo) (ds : List (AddrInfo × ℕ))
    → All (VisitedRow order table) ds
    → All (VisitedRow (j ∷ order) table) ds
All-Visited-later j order table [] h = tt
All-Visited-later j order table (d ∷ ds) h =
    ((h.0.0, ground (arith, h.0.1)), All-Visited-later j order table ds h.1)

module _ (sha256 : Bytes → Bytes) (target : Bytes) where
  dist_found-Visited :
      (j : Bytes) (order : List Bytes) (table : Dict Bytes AddrInfo) (found : Option AddrInfo)
      (dists : List (AddrInfo × ℕ))
      → IsKeyed table
      → get j table ≡ found
      → All (VisitedRow (j ∷ order) table) dists
      → All (VisitedRow (j ∷ order) table) (dist_found sha256 target found dists)
  unfolding dist_found
  dist_found-Visited j order table none dists keyed here h = h
  dist_found-Visited j order table (some info) dists keyed here h =
      let same = keyed j info here in
      ((ap (λ (i : Bytes). get i table) same ∙ here, ground (arith, eq_iff j info.id, same)), h)

  pub dists_of-Visited :
      (order : List Bytes) (table : Dict Bytes AddrInfo)
      → IsKeyed table
      → All (VisitedRow order table) (dists_of sha256 target order table)
  unfolding dists_of
  dists_of-Visited [] table keyed = tt
  dists_of-Visited (j ∷ order) table keyed =
      dist_found-Visited j order table (get j table) (dists_of sha256 target order table) keyed refl
        (All-Visited-later j order table (dists_of sha256 target order table)
          (dists_of-Visited order table keyed))

  IsDistinct-dist_found :
      (j : Bytes) (table : Dict Bytes AddrInfo) (found : Option AddrInfo)
      (dists : List (AddrInfo × ℕ))
      → IsKeyed table
      → get j table ≡ found
      → contains j (images id_of dists) ≡ false
      → IsDistinct (images id_of dists)
      → IsDistinct (images id_of (dist_found sha256 target found dists))
  unfolding dist_found
  IsDistinct-dist_found j table none dists keyed here new d = d
  IsDistinct-dist_found j table (some info) dists keyed here new d = (rw (keyed j info here) new, d)

  pub IsDistinct-dists_of :
      (order : List Bytes) (table : Dict Bytes AddrInfo)
      → IsKeyed table
      → All (λ j. has j table ≡ true) order
      → IsDistinct order
      → IsDistinct (images id_of (dists_of sha256 target order table))
  unfolding dists_of
  IsDistinct-dists_of [] table keyed h d = tt
  IsDistinct-dists_of (j ∷ order) table keyed h d =
      IsDistinct-dist_found j table (get j table) (dists_of sha256 target order table) keyed refl
        (contains-dists_of sha256 target j order table keyed h.1 ∙ d.0)
        (IsDistinct-dists_of order table keyed h.1 d.1)
