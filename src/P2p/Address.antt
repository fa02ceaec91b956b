-- ===== src/P2p/Address.antt =====
-- ParsePeerAddr (internal/network/p2p/addr.go). What libp2p and package net make of a text are parameters.
use skall.Base.{
  Bool, true, false, ◌||◌, Option, none, some, List, [], ◌∷◌, ◌++◌, contains, if◌then◌else◌, ◌==◌,
  Result, ok, err,
}
use skall.Bytes.{Bytes, Bytes-eq, lit, is_empty, trim_space, contains_text}
use skall.Dht.State.{AddrInfo}

pub data IpKind : Type 0 where
  ip4 ip6 no_ip : IpKind

-- ma.NewMultiaddr with the text of the address, peer.AddrInfoFromP2pAddr, peer.Decode, net.SplitHostPort
-- and net.ParseIP; `none` is an error.
pub record Libp2p : Type 0 where
  pub multiaddr : Bytes → Option Bytes
  pub addr_info : Bytes → Option AddrInfo
  pub decode : Bytes → Option Bytes
  pub split_host_port : Bytes → Option (Bytes × Bytes)
  pub parse_ip : Bytes → IpKind

pub data AddrError : Type 0 where
  empty_target invalid_optional_id id_mismatch no_peer_id invalid_peer_id invalid_endpoint
        invalid_address :
      AddrError

-- The check of an address with a peer ID against the ID that was given.
unfoldable pub match_id : Bytes → AddrInfo → Option Bytes → Result AddrError AddrInfo
match_id opt info none = if is_empty opt then ok info else err invalid_optional_id
match_id opt info (some pid) =
    if is_empty opt then ok info else if pid == info.id then ok info else err id_mismatch

-- An address, with the peer ID that was given for it.
unfoldable pub with_id : Bytes → Option Bytes → Result AddrError AddrInfo
with_id addr none = err invalid_peer_id
with_id addr (some pid) = ok (record { id = pid; addrs = addr ∷ [] })

abbrev pub endpoint_text : IpKind → Bytes → Bytes → Bytes
endpoint_text ip4 host port = lit "/ip4/" ++ host ++ lit "/tcp/" ++ port
endpoint_text ip6 host port = lit "/ip6/" ++ host ++ lit "/tcp/" ++ port
endpoint_text no_ip host port = lit "/dns4/" ++ host ++ lit "/tcp/" ++ port

unfoldable pub with_endpoint : Bytes → Option Bytes → Option Bytes → Result AddrError AddrInfo
with_endpoint opt none addr = err invalid_peer_id
with_endpoint opt (some pid) none = err invalid_endpoint
with_endpoint opt (some pid) (some addr) = ok (record { id = pid; addrs = addr ∷ [] })

module _ (lib : Libp2p) where
  -- ValidateMultiaddr
  unfoldable pub validate_multiaddr : Bytes → Bool
  validate_multiaddr raw =
      let trimmed = trim_space raw in
      if is_empty trimmed
      then false
      else elim (lib.multiaddr trimmed) [ none ↦ false | some addr ↦ true ]

  unfoldable pub parse_multiaddr : Bytes → Bytes → Option AddrInfo → Result AddrError AddrInfo
  parse_multiaddr opt addr (some info) = match_id opt info (lib.decode opt)
  parse_multiaddr opt addr none =
      if is_empty opt then err no_peer_id else with_id addr (lib.decode opt)

  unfoldable pub parse_endpoint : Bytes → Option (Bytes × Bytes) → Result AddrError AddrInfo
  parse_endpoint opt none = err invalid_address
  parse_endpoint opt (some (host, port)) =
      if is_empty opt
      then err no_peer_id
      else with_endpoint opt (lib.decode opt)
          (lib.multiaddr (endpoint_text (lib.parse_ip host) host port))

  unfoldable pub parse_other : Bytes → Bytes → Option Bytes → Result AddrError AddrInfo
  parse_other target opt (some pid) = ok (record { id = pid; addrs = [] })
  parse_other target opt none = parse_endpoint opt (lib.split_host_port target)

  unfoldable pub parse_target : Bytes → Bytes → Option Bytes → Result AddrError AddrInfo
  parse_target target opt (some addr) = parse_multiaddr opt addr (lib.addr_info addr)
  parse_target target opt none = parse_other target opt (lib.decode target)

  -- ParsePeerAddr
  unfoldable pub parse_peer_addr : Bytes → Bytes → Result AddrError AddrInfo
  parse_peer_addr target opt =
      if is_empty (trim_space target)
      then err empty_target
      else parse_target (trim_space target) (trim_space opt) (lib.multiaddr (trim_space target))

-- IsRelayAddr, on the names of the protocols of an address and its text
unfoldable pub is_relay_addr : List Bytes → Bytes → Bool
is_relay_addr protocols text =
    contains (lit "p2p-circuit") protocols || contains_text text (lit "/p2p-circuit")
