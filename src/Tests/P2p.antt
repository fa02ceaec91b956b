-- ===== src/Tests/P2p.antt =====
-- The properties of the p2p host, with a libp2p that knows one peer.
use skall.Base.{◌≡◌, inr, ◌∷◌, [], refl, true, false, Option, none, some, arith}
use skall.Bytes.{lit, trim_space}
use skall.P2p.Backoff.{BackoffConfig, Attempt, RetryError, retry}
use skall.P2p.Retries.{retry_ends}
use skall.P2p.Address.{Libp2p, no_ip, parse_peer_addr, parse_target, parse_multiaddr, with_id}
use skall.P2p.Matching.{parse_peer_addr_lem}

abbrev cfg : BackoffConfig
cfg = record {
  initial_interval = 1;
  max_interval = 5;
  scale = λ d. d;
  above_one = true;
  doubled = λ d. d;
  max_retries = 2;
  jitter = none;
}

abbrev fails : Attempt
fails = record { error = some (lit "refused"); cancels = false }

retry_ends_example : (r : Option RetryError) × (retry cfg (fails ∷ fails ∷ fails ∷ []) ≡ some r)
retry_ends_example = retry_ends cfg (fails ∷ fails ∷ fails ∷ []) (λ e. ground arith) (omega arith)

abbrev lib : Libp2p
lib = record {
  multiaddr = λ s. some s;
  addr_info = λ s. none;
  decode = λ s. some s;
  split_host_port = λ s. none;
  parse_ip = λ s. no_ip;
}

parse_peer_addr_example : lib.decode (trim_space (lit "bob")) ≡ some (lit "bob")
unfolding trim_space parse_peer_addr parse_target parse_multiaddr with_id
parse_peer_addr_example =
    parse_peer_addr_lem lib (lit "a/b") (lit "bob")
      {got = record { id = lit "bob"; addrs = lit "a/b" ∷ [] }} refl (inr (λ e. ground arith)) refl
