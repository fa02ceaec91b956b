-- ===== src/Tests/Discovery.antt =====
-- The properties of discovery with one peer on the network.
use skall.Base.{ℕ, ◌≡◌, ◌&&◌, List, [], ◌∷◌, arith, if◌then◌else◌}
use skall.Bytes.{Bytes, Bytes-eq, bytes_eq, lit, trim_space}
use skall.Dict.{empty, get, has, put}
use skall.Discovery.Peer.{PeerInfo, Event, peer_added, peer_removed, is_valid, key}
use skall.Discovery.Mdns.{Discovery, new_discovery, seen_set, add_found, add_peers, apply_diff}
use skall.Discovery.Diff.{Visits, apply_diff_lem}

abbrev bob : PeerInfo
bob = record { peer_id = lit "bob"; display_name = lit "Bob"; host = lit "10.0.0.2"; port = 9000 }

-- The port that the table has is an older one.
abbrev known : Discovery
known = record (new_discovery (lit "ann")) {
  entries = (lit "bob", record bob { port = 8000 }) ∷ [];
}

abbrev bobs : List Bytes
bobs = lit "bob" ∷ []

bobs_set : Visits bobs (seen_set (lit "ann") (bob ∷ []) empty)
unfolding seen_set get put is_valid key bytes_eq trim_space
bobs_set k = ground arith

bobs_table : Visits bobs (add_peers bobs (seen_set (lit "ann") (bob ∷ []) empty) known).entries
unfolding seen_set add_peers add_found get put is_valid key bytes_eq trim_space
bobs_table k = ground arith

apply_diff_example :
    let set = seen_set (lit "ann") (bob ∷ []) empty in
    get (lit "bob") (apply_diff bobs bobs (bob ∷ []) known).entries ≡ (
      if has (lit "bob") set && has (lit "bob") known.entries
      then get (lit "bob") known.entries
      else get (lit "bob") set)
apply_diff_example = apply_diff_lem bobs bobs (bob ∷ []) known (lit "bob") bobs_set bobs_table

-- A peer is added, and one whose ID is a part of its ID is removed.
abbrev events : List (ℕ × Event)
events =
    (1, record { type = peer_added; peer = bob })
    ∷ (2, record { type = peer_removed; peer = record bob { peer_id = lit "bo" } })
    ∷ []
