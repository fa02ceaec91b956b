-- ===== src/Dht/Found.antt =====
-- Which peers FindPeers and discoverOnce find (internal/network/p2p/dht.go).
use skall.Base.{
  ℕ, ◌≡◌, refl, ap, Bool, true, false, not, ◌&&◌, List, [], ◌∷◌, ◌++◌, arith, length, leb, nat_eq,
  if◌then◌else◌, if_intro, contains, eq_iff, IsDistinct, IsDistinct-append, contains-append_one,
}
use skall.Bytes.{Bytes, Bytes-eq, is_empty}
use skall.Dht.State.{AddrInfo, DhtMessage, Manager, k_bucket_size}
use skall.Dht.Table.{no_addrs}
use skall.Dht.Providers.{get_local_providers}
use skall.Dht.Search.{
  Search, sent, marked, search_local, search_answer, is_providers_resp, search_network, search_on,
  find_peers,
}
use skall.Dht.Dists.{ids}

ids-append : (xs : List AddrInfo) (info : AddrInfo) → ids (xs ++ info ∷ []) ≡ ids xs ++ info.id ∷ []
ids-append [] info = refl
ids-append (x ∷ xs) info = ap (λ rest. x.id ∷ rest) (ids-append xs info)

-- What the goroutines of FindPeers keep: each peer was sent once, is seen, and is not the host.
record IsSound (self : Bytes) (s : Search) : Type 0 where
  distinct : IsDistinct (ids s.out)
  known : (k : Bytes) → contains k (ids s.out) ≡ true → contains k s.seen ≡ true
  self_seen : contains self s.seen ≡ true
  apart : contains self (ids s.out) ≡ false

sent-IsSound :
    (self : Bytes) (info : AddrInfo) (s : Search)
    → contains info.id s.seen ≡ false
    → IsSound self s
    → IsSound self (sent info s)
sent-IsSound self info s new h =
    let fresh : contains info.id (ids s.out) ≡ false = ground (arith, h.known info.id) in
    record {
      distinct =
          rw (ids-append s.out info) (IsDistinct-append info.id (ids s.out) h.distinct fresh);
      known = λ k there. ground (
        arith,
        ap (contains k) (ids-append s.out info),
        contains-append_one k info.id (ids s.out),
        h.known k,
      );
      self_seen = ground (arith, h.self_seen);
      apart = ground (
        arith,
        ap (contains self) (ids-append s.out info),
        contains-append_one self info.id (ids s.out),
        h.apart,
        h.self_seen,
        eq_iff info.id self,
      );
    }

marked-IsSound :
    (self : Bytes) (info : AddrInfo) (s : Search) → IsSound self s → IsSound self (marked info s)
marked-IsSound self info s h = record {
  distinct = h.distinct;
  known = λ k there. ground (arith, h.known k);
  self_seen = ground (arith, h.self_seen);
  apart = h.apart;
}

search_local-IsSound :
    (self : Bytes) (goes : Bytes → Bool) (limit : ℕ) (infos : List AddrInfo) (s : Search)
    → IsSound self s
    → IsSound self (search_local goes limit infos s).0
unfolding search_local
search_local-IsSound self goes limit [] s h = h
search_local-IsSound self goes limit (info ∷ infos) s h =
    if_intro Sound (contains info.id s.seen) _ _
      (λ e. search_local-IsSound self goes limit infos s h)
      λ new.
        if_intro Sound (not (goes info.id)) _ _ (λ e. marked-IsSound self info s h)
          λ e.
            if_intro Sound (leb limit (length s.seen)) _ _ (λ e. sent-IsSound self info s new h)
              λ e.
                search_local-IsSound self goes limit infos (sent info s)
                  (sent-IsSound self info s new h)
  where
    Sound : Search × Bool → Type 0
    Sound r = IsSound self r.0

search_answer-IsSound :
    (self : Bytes) (goes : Bytes → Bool) (infos : List AddrInfo) (s : Search)
    → IsSound self s
    → IsSound self (search_answer goes infos s)
unfolding search_answer
search_answer-IsSound self goes [] s h = h
search_answer-IsSound self goes (info ∷ infos) s h =
    if_intro (IsSound self) (not (contains info.id s.seen) && not (no_addrs info)) _ _
      (λ new.
        if_intro (IsSound self) (goes info.id) _ _
          (λ e.
            search_answer-IsSound self goes infos (sent info s)
              (sent-IsSound self info s (ground arith) h))
          (λ e. marked-IsSound self info s h))
      (λ e. search_answer-IsSound self goes infos s h)

search_network-IsSound :
    (self : Bytes) (goes : Bytes → Bool) (answers : List DhtMessage) (s : Search)
    → IsSound self s
    → IsSound self (search_network goes answers s)
unfolding search_network
search_network-IsSound self goes [] s h = h
search_network-IsSound self goes (resp ∷ answers) s h = search_network-IsSound self goes answers _ (
    if_intro (IsSound self) (is_providers_resp resp.type) _ _
      (λ e. search_answer-IsSound self goes resp.peers s h) (λ e. h))

search_on-IsSound :
    (self : Bytes) (goes : Bytes → Bool) (answers : List DhtMessage) (s : Search) (returned : Bool)
    → IsSound self s
    → IsSound self (search_on goes answers (s, returned))
unfolding search_on
search_on-IsSound self goes answers s true h = h
search_on-IsSound self goes answers s false h = search_network-IsSound self goes answers s h

start-IsSound : (self : Bytes) → IsSound self (record { seen = self ∷ []; out = [] })
start-IsSound self = record {
  distinct = tt;
  known = λ k h. absurd (ground arith);
  self_seen = ground (arith, eq_iff self self);
  apart = refl;
}

-- However the network answers and wherever the context ends, FindPeers sends no peer twice and never the host.
pub find_peers-IsDistinct :
    (now : ℕ) (order : List Bytes) (goes : Bytes → Bool) (answers : List DhtMessage) (ns : Bytes)
    (limit : ℕ) (dm : Manager)
    → IsDistinct (ids (find_peers now order goes answers ns limit dm).1)
      × (contains dm.host.id (ids (find_peers now order goes answers ns limit dm).1) ≡ false)
unfolding find_peers
find_peers-IsDistinct now order goes answers ns limit dm = (sound.distinct, sound.apart)
  where
    found : List AddrInfo
    found = (get_local_providers now order (if is_empty ns then dm.cfg.namespace else ns) dm).1

    begun : Search
    begun = record { seen = dm.host.id ∷ []; out = [] }

    max : ℕ
    max = if nat_eq limit 0 then k_bucket_size else limit

    sound : IsSound dm.host.id (search_on goes answers (search_local goes max found begun))
    sound =
        search_on-IsSound dm.host.id goes answers (search_local goes max found begun).0
          (search_local goes max found begun).1
          (search_local-IsSound dm.host.id goes max found begun (start-IsSound dm.host.id))
