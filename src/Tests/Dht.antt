-- ===== src/Tests/Dht.antt =====
-- The properties of the DHT manager with two other nodes.
use skall.Base.{
  ◌≡◌, ◌≤◌, ◌⊎◌, refl, true, false, not, ◌||◌, Option, none, some, List, [], ◌∷◌, ◌+◌, arith,
  contains, length, ltb, All, IsDistinct, ok, if◌then◌else◌, ◌==◌, eq_iff,
}
use Prim.Native.Nat.{min}
use skall.Bytes.{Bytes, Bytes-eq, bytes_eq, lit, trim_space, to_lower}
use skall.Dict.{Dict, get, has}
use skall.Dht.State.{
  AddrInfo, DhtConfig, DhtMessage, DhtMessageType, Manager, default_config, new_manager,
  new_dht_manager, mode_of, with_defaults,
}
use skall.Dht.Table.{add_peer}
use skall.Dht.Distance.{xor_key_distance, closest_peers}
use skall.Dht.Providers.{store_provider, get_local_providers}
use skall.Dht.Serve.{response}
use skall.Dht.Search.{find_peers, discover_once}
use skall.Dht.Dists.{IsKeyed, ids}
use skall.Dht.Once.{Visited}
use skall.Dht.Closest.{closest_peers_lem}
use skall.Dht.Keeps.{IsRouted, new_manager-IsRouted}
use skall.Dht.Reach.{Reach, Step, Reach-IsRouted}
use skall.Dht.Found.{find_peers-IsDistinct}
use skall.Dht.Advertised.{store_provider-get_local_providers, new_dht_manager_disabled}
use skall.Dht.Discovered.{discover_once_lem}
use skall.Tests.Codec.{json}

abbrev self : AddrInfo
self = record { id = lit "self"; addrs = lit "/ip4/10.0.0.1" ∷ [] }

abbrev bob : AddrInfo
bob = record { id = lit "bob"; addrs = lit "/ip4/10.0.0.2" ∷ [] }

abbrev eve : AddrInfo
eve = record { id = lit "eve"; addrs = lit "/ip4/10.0.0.3" ∷ [] }

abbrev fresh_dht : Manager
fresh_dht = new_manager self default_config

abbrev table : Dict Bytes AddrInfo
table = (lit "bob", bob) ∷ (lit "eve", eve) ∷ []

abbrev sha256 : Bytes → Bytes
sha256 s = s

table-IsKeyed : IsKeyed table
unfolding get
table-IsKeyed k info h = ground (arith, eq_iff (lit "bob") k, eq_iff (lit "eve") k)

abbrev nearest : List AddrInfo
nearest = closest_peers sha256 (lit "bob" ∷ lit "eve" ∷ []) table (lit "box") 1

closest_peers_example :
    (length nearest ≡ min 1 2)
    × IsDistinct (ids nearest)
    × All (Visited (lit "bob" ∷ lit "eve" ∷ []) table) nearest
    × ((contains (lit "eve") (ids nearest) ≡ true)
        ⊎ All
            (λ info.
              xor_key_distance sha256 (lit "box") info.id
              ≤ xor_key_distance sha256 (lit "box") (lit "eve"))
            nearest)
unfolding get bytes_eq
closest_peers_example =
    closest_peers_lem sha256 (lit "bob" ∷ lit "eve" ∷ []) table (lit "box") 1 (lit "eve")
      table-IsKeyed (refl, (refl, tt)) (refl, (refl, tt)) refl

abbrev decode : Bytes → Option DhtMessage
decode s = none

Reach-IsRouted_example : IsRouted (add_peer bob fresh_dht)
Reach-IsRouted_example =
    Reach-IsRouted {json = json} {decode = decode} {sha256 = sha256}
      (Reach.next Reach.start (Step.adds bob))

abbrev answer_of_bob : DhtMessage
answer_of_bob = record (response DhtMessageType.find_providers_resp bob 5) {
  peers = eve ∷ bob ∷ eve ∷ self ∷ [];
}

find_peers-IsDistinct_example :
    let found = (find_peers 5 [] (λ id. true) (answer_of_bob ∷ []) [] 20 fresh_dht).1 in
    IsDistinct (ids found) × (contains (lit "self") (ids found) ≡ false)
find_peers-IsDistinct_example =
    find_peers-IsDistinct 5 [] (λ id. true) (answer_of_bob ∷ []) [] 20 fresh_dht

store_provider-get_local_providers_example :
    contains (lit "bob") (
      ids
        (get_local_providers 12
          (lit "bob" ∷ [])
          (lit "ns")
          (store_provider 5 (lit "ns") bob 10 fresh_dht)).1)
    ≡ not (ltb (5 + 10) 12)
unfolding bytes_eq
store_provider-get_local_providers_example =
    store_provider-get_local_providers 5 10 12 (lit "bob" ∷ []) (lit "ns") bob fresh_dht
      (new_manager-IsRouted self default_config) refl refl refl refl

discover_once_example :
    let after = discover_once 5 [] (λ id. true) (answer_of_bob ∷ []) fresh_dht in
    IsDistinct (ids after.1)
    × (has (lit "eve") after.0.routing_table
        ≡ (has (lit "eve") fresh_dht.routing_table || contains (lit "eve") (ids after.1)))
discover_once_example =
    discover_once_lem 5 [] (λ id. true) (answer_of_bob ∷ []) fresh_dht (lit "eve")

abbrev blank_disabled : DhtConfig
blank_disabled = record default_config { mode = lit " Disabled" }

new_dht_manager_disabled_example :
    new_dht_manager self blank_disabled
    ≡ ok (
        if to_lower (lit " Disabled") == lit "disabled"
        then none
        else some (new_manager self (with_defaults (lit "disabled") blank_disabled)))
unfolding mode_of to_lower trim_space
new_dht_manager_disabled_example = new_dht_manager_disabled self blank_disabled refl
