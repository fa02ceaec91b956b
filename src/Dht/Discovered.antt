-- ===== src/Dht/Discovered.antt =====
-- What a discovery makes of the routing table, and the limit of a search (internal/network/p2p/dht.go).
use skall.Base.{
  ℕ, suc, ◌≡◌, ◌≤◌, ◌<◌, refl, ap, ◌∙◌, Bool, true, false, not, ◌||◌, Option, none, some, List, [],
  ◌∷◌, ◌++◌, arith, length, length-append, leb, if_intro, ◌==◌, contains, IsDistinct,
}
use skall.Bytes.{Bytes, Bytes-eq}
use skall.Dict.{Dict, has, has-put}
use skall.Dht.State.{AddrInfo, DhtMessage, ProviderRecord, Manager, k_bucket_size}
use skall.Dht.Table.{add_peer, no_addrs}
use skall.Dht.Providers.{get_local_providers, providers_in}
use skall.Dht.Found.{find_peers-IsDistinct}
use skall.Dht.Search.{Search, sent, search_local, find_peers, discover_each, discover_once}
use skall.Dht.Dists.{ids}

-- The loop over the local providers sends at most limit peers.
search_local_bounds :
    (goes : Bytes → Bool) (limit : ℕ) (infos : List AddrInfo) (s : Search)
    → length s.seen ≡ suc (length s.out)
    → length s.out < limit
    → length (search_local goes limit infos s).0.out ≤ limit
unfolding search_local
search_local_bounds goes limit [] s e h = omega (arith, h)
search_local_bounds goes limit (info ∷ infos) s e h =
    if_intro Fits (contains info.id s.seen) _ _ (λ t. search_local_bounds goes limit infos s e h)
      λ t.
        if_intro Fits (not (goes info.id)) _ _ (λ u. omega (arith, h))
          λ u.
            if_intro Fits (leb limit (length s.seen)) _ _ (λ v. one_more)
              λ v.
                search_local_bounds goes limit infos (sent info s)
                  (omega (arith, e, length-append s.out (info ∷ [])))
                  (ground (arith, e, v, length-append s.out (info ∷ [])))
  where
    Fits : Search × Bool → Type 0
    Fits r = length r.0.out ≤ limit

    one_more : length (s.out ++ info ∷ []) ≤ limit
    one_more = omega (arith, h, length-append s.out (info ∷ []))

add_peer-host : (info : AddrInfo) (dm : Manager) → (add_peer info dm).host ≡ dm.host
unfolding add_peer
add_peer-host info dm =
    if_intro (λ (d : Manager). d.host ≡ dm.host) (info.id == dm.host.id || no_addrs info) _ _
      (λ e. refl) (λ e. refl)

has-add_peer :
    (k : Bytes) (info : AddrInfo) (dm : Manager)
    → (info.id == dm.host.id || no_addrs info) ≡ false
    → has k (add_peer info dm).routing_table ≡ (info.id == k || has k dm.routing_table)
unfolding add_peer
has-add_peer k info dm e = rw e (has-put k info.id info dm.routing_table)

discover_each_lem :
    (infos : List AddrInfo) (dm : Manager) (k : Bytes)
    → has k (discover_each infos dm).0.routing_table
      ≡ (has k dm.routing_table || contains k (ids (discover_each infos dm).1))
unfolding discover_each
discover_each_lem [] dm k = ground arith
discover_each_lem (info ∷ infos) dm k =
    if_intro
      (λ (r : Manager × List AddrInfo).
        has k r.0.routing_table ≡ (has k dm.routing_table || contains k (ids r.1)))
      (info.id == dm.host.id || no_addrs info) _ _ (λ e. discover_each_lem infos dm k)
      (λ e. ground (arith, discover_each_lem infos (add_peer info dm) k, has-add_peer k info dm e))

contains-discover_each :
    (infos : List AddrInfo) (dm : Manager) (k : Bytes)
    → contains k (ids (discover_each infos dm).1) ≡ true
    → contains k (ids infos) ≡ true
unfolding discover_each
contains-discover_each [] dm k h = h
contains-discover_each (info ∷ infos) dm k h =
    ground
      (arith, contains-discover_each infos dm k, contains-discover_each infos (add_peer info dm) k)

discover_each-IsDistinct :
    (infos : List AddrInfo) (dm : Manager)
    → IsDistinct (ids infos)
    → IsDistinct (ids (discover_each infos dm).1)
unfolding discover_each
discover_each-IsDistinct [] dm d = tt
discover_each-IsDistinct (info ∷ infos) dm d =
    if_intro (λ (r : Manager × List AddrInfo). IsDistinct (ids r.1))
      (info.id == dm.host.id || no_addrs info) _ _ (λ e. discover_each-IsDistinct infos dm d.1)
      (λ e. (
        ground (arith, contains-discover_each infos (add_peer info dm) info.id, d.0),
        discover_each-IsDistinct infos (add_peer info dm) d.1,
      ))

providers_in-routing_table :
    (now : ℕ) (order : List Bytes) (ns : Bytes) (found : Option (Dict Bytes ProviderRecord))
    (dm : Manager)
    → (providers_in now order ns found dm).0.routing_table ≡ dm.routing_table
unfolding providers_in
providers_in-routing_table now order ns none dm = refl
providers_in-routing_table now order ns (some bucket) dm = refl

find_peers-routing_table :
    (now : ℕ) (order : List Bytes) (goes : Bytes → Bool) (answers : List DhtMessage) (ns : Bytes)
    (limit : ℕ) (dm : Manager)
    → (find_peers now order goes answers ns limit dm).0.routing_table ≡ dm.routing_table
unfolding find_peers get_local_providers
find_peers-routing_table now order goes answers ns limit dm =
    providers_in-routing_table now order _ _ dm

-- A discovery calls onPeerFound once for each peer that it adds, and the routing table has after it exactly
-- the peers that it had before and those that onPeerFound was called with.
pub discover_once_lem :
    (now : ℕ) (order : List Bytes) (goes : Bytes → Bool) (answers : List DhtMessage) (dm : Manager)
    (k : Bytes)
    → IsDistinct (ids (discover_once now order goes answers dm).1)
      × (has k (discover_once now order goes answers dm).0.routing_table ≡ (
          has k dm.routing_table || contains k (ids (discover_once now order goes answers dm).1)))
unfolding discover_once
discover_once_lem now order goes answers dm k =
    let found = find_peers now order goes answers dm.cfg.namespace k_bucket_size dm in
    (
      discover_each-IsDistinct found.1 found.0
          (find_peers-IsDistinct now order goes answers dm.cfg.namespace k_bucket_size dm).0,
      discover_each_lem found.1 found.0 k
          ∙ ap (λ t. has k t || contains k (ids (discover_each found.1 found.0).1))
              (find_peers-routing_table now order goes answers dm.cfg.namespace k_bucket_size dm),
    )
