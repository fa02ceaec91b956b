-- ===== src/Dht/Distance.antt =====
-- XORKeyDistance and ClosestPeers (internal/network/p2p/dht.go). SHA-256 is a parameter.
use skall.Base.{
  ℕ, zero, suc, ◌+◌, ◌*◌, ◌/◌, ◌%◌, Bool, Option, none, some, List, [], ◌∷◌, leb, nat_eq, take,
  if◌then◌else◌,
}
use skall.Bytes.{Bytes, Bytes-eq}
use skall.Dict.{Dict, get}
use skall.Dict.Sort.{sort}
use skall.Dht.State.{AddrInfo}

-- a ^ b on the lowest w bits
unfoldable pub xor_bits : ℕ → ℕ → ℕ → ℕ
xor_bits zero a b = 0
xor_bits (suc w) a b = (if nat_eq (a % 2) (b % 2) then 0 else 1) + 2 * xor_bits w (a / 2) (b / 2)

unfoldable pub xor_bytes : Bytes → Bytes → Bytes
xor_bytes [] t = []
xor_bytes (a ∷ s) [] = []
xor_bytes (a ∷ s) (b ∷ t) = xor_bits 8 a b ∷ xor_bytes s t

-- big.Int.SetBytes, on what was read so far
unfoldable pub set_bytes : ℕ → Bytes → ℕ
set_bytes n [] = n
set_bytes n (b ∷ s) = set_bytes (n * 256 + b) s

module _ (sha256 : Bytes → Bytes) where
  unfoldable pub xor_key_distance : Bytes → Bytes → ℕ
  xor_key_distance a b = set_bytes 0 (xor_bytes (sha256 a) (sha256 b))

  -- ClosestPeers: the loop over the routing table, in the order of its range, with the distance of each.
  unfoldable pub dist_found : Bytes → Option AddrInfo → List (AddrInfo × ℕ) → List (AddrInfo × ℕ)
  dist_found target none dists = dists
  dist_found target (some info) dists = (info, xor_key_distance target info.id) ∷ dists

  unfoldable pub dists_of : Bytes → List Bytes → Dict Bytes AddrInfo → List (AddrInfo × ℕ)
  dists_of target [] table = []
  dists_of target (k ∷ order) table = dist_found target (get k table) (dists_of target order table)

abbrev pub dist_le : AddrInfo × ℕ → AddrInfo × ℕ → Bool
dist_le p q = leb p.1 q.1

unfoldable pub infos : List (AddrInfo × ℕ) → List AddrInfo
infos [] = []
infos (d ∷ dists) = d.0 ∷ infos dists

-- ClosestPeers
unfoldable pub closest_peers :
    (Bytes → Bytes) → List Bytes → Dict Bytes AddrInfo → Bytes → ℕ → List AddrInfo
closest_peers sha256 order table target count =
    infos (take count (sort dist_le (dists_of sha256 target order table)))
