-- ===== src/P2p/Matching.antt =====
-- Which peer ID ParsePeerAddr gives (internal/network/p2p/addr.go).
use skall.Base.{◌≡◌, ◌≢◌, ◌⊎◌, refl, false, Option, none, some, arith, eq_iff, ok}
use skall.Bytes.{Bytes, Bytes-eq, is_empty, trim_space}
use skall.Dht.State.{AddrInfo}
use skall.P2p.Address.{
  Libp2p, match_id, with_id, parse_multiaddr, endpoint_text, with_endpoint, parse_endpoint,
  parse_other, parse_target, parse_peer_addr,
}

module _ (lib : Libp2p) where
  match_id_lem :
      (opt : Bytes) (info : AddrInfo) (found : Option Bytes) {got : AddrInfo}
      → is_empty opt ≡ false
      → match_id opt info found ≡ ok got
      → found ≡ some got.id
  unfolding match_id
  match_id_lem opt info none given h = absurd (ground arith)
  match_id_lem opt info (some pid) given h = ground (arith, eq_iff pid info.id)

  with_id_lem :
      (addr : Bytes) (found : Option Bytes) {got : AddrInfo}
      → with_id addr found ≡ ok got
      → found ≡ some got.id
  unfolding with_id
  with_id_lem addr none h = absurd (ground arith)
  with_id_lem addr (some pid) h = ground arith

  parse_multiaddr_lem :
      (opt addr : Bytes) (found : Option AddrInfo) {got : AddrInfo}
      → is_empty opt ≡ false
      → parse_multiaddr lib opt addr found ≡ ok got
      → lib.decode opt ≡ some got.id
  unfolding parse_multiaddr
  parse_multiaddr_lem opt addr none {got} given h =
      with_id_lem addr (lib.decode opt) {got = got} (ground arith)
  parse_multiaddr_lem opt addr (some info) {got} given h =
      match_id_lem opt info (lib.decode opt) given h

  with_endpoint_lem :
      (opt : Bytes) (found addr : Option Bytes) {got : AddrInfo}
      → with_endpoint opt found addr ≡ ok got
      → found ≡ some got.id
  unfolding with_endpoint
  with_endpoint_lem opt none addr h = absurd (ground arith)
  with_endpoint_lem opt (some pid) none h = absurd (ground arith)
  with_endpoint_lem opt (some pid) (some addr) h = ground arith

  parse_endpoint_lem :
      (opt : Bytes) (found : Option (Bytes × Bytes)) {got : AddrInfo}
      → is_empty opt ≡ false
      → parse_endpoint lib opt found ≡ ok got
      → lib.decode opt ≡ some got.id
  unfolding parse_endpoint
  parse_endpoint_lem opt none {got} given h = absurd (ground arith)
  parse_endpoint_lem opt (some (host, port)) {got} given h =
      with_endpoint_lem opt (lib.decode opt)
        (lib.multiaddr (endpoint_text (lib.parse_ip host) host port)) {got = got} (ground arith)

  parse_target_lem :
      (target opt : Bytes) (found : Option Bytes) {got : AddrInfo}
      → is_empty opt ≡ false
      → (lib.decode target ≡ none) ⊎ (found ≢ none)
      → parse_target lib target opt found ≡ ok got
      → lib.decode opt ≡ some got.id
  unfolding parse_target parse_other
  parse_target_lem target opt (some addr) given no_bare h =
      parse_multiaddr_lem opt addr (lib.addr_info addr) given h
  parse_target_lem target opt none given no_bare h = by_bare (lib.decode target) refl h
    where
      by_bare :
          {got : AddrInfo} (bare : Option Bytes)
          → lib.decode target ≡ bare
          → parse_other lib target opt bare ≡ ok got
          → lib.decode opt ≡ some got.id
      by_bare none e h = parse_endpoint_lem opt (lib.split_host_port target) given h
      by_bare (some pid) e h = absurd (ground (arith, no_bare, e))

  -- When a peer ID is given and the target is not itself a bare peer ID, what ParsePeerAddr returns without an
  -- error has the peer ID that was given.
  pub parse_peer_addr_lem :
      (target opt : Bytes) {got : AddrInfo}
      → is_empty (trim_space opt) ≡ false
      → (lib.decode (trim_space target) ≡ none) ⊎ (lib.multiaddr (trim_space target) ≢ none)
      → parse_peer_addr lib target opt ≡ ok got
      → lib.decode (trim_space opt) ≡ some got.id
  unfolding parse_peer_addr
  parse_peer_addr_lem target opt {got} given no_bare h =
      parse_target_lem (trim_space target) (trim_space opt) (lib.multiaddr (trim_space target))
        {got = got} given no_bare (ground arith)
