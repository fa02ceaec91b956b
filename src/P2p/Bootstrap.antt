-- ===== src/P2p/Bootstrap.antt =====
-- The bootstrap peers (internal/network/p2p/bootstrap.go). What host.Connect answers for each peer is a parameter.
use skall.Base.{
  ℕ, suc, ◌+◌, ◌≡◌, refl, ap, Bool, false, ◌||◌, Option, none, some, List, [], ◌∷◌, arith, contains,
  length, if◌then◌else◌, if_intro, ◌==◌, Result, ok, err, All,
}
use skall.Bytes.{Bytes, Bytes-eq, is_empty}
use skall.Dht.State.{AddrInfo}
use skall.P2p.Address.{Libp2p, AddrError, parse_peer_addr}
use skall.P2p.Backoff.{Backoff, reset, sleep, SleepError}

pub record BootstrapManager : Type 0 where
  pub peers : List AddrInfo
  pub connected_count : ℕ

-- The loop of NewBootstrapManager over the addresses.
unfoldable pub parse_one :
    Bytes
    → Result AddrError AddrInfo
    → Result AddrError (List AddrInfo)
    → Result AddrError (List AddrInfo)
parse_one self (err e) rest = err e
parse_one self (ok info) (err e) = err e
parse_one self (ok info) (ok infos) = if info.id == self then ok infos else ok (info ∷ infos)

unfoldable pub parse_each : Libp2p → Bytes → List Bytes → Result AddrError (List AddrInfo)
parse_each lib self [] = ok []
parse_each lib self (raw ∷ addrs) =
    let rest = parse_each lib self addrs in
    if is_empty raw then rest else parse_one self (parse_peer_addr lib raw []) rest

abbrev pub with_peers : Result AddrError (List AddrInfo) → Result AddrError BootstrapManager
with_peers (err e) = err e
with_peers (ok infos) = ok (record { peers = infos; connected_count = 0 })

-- NewBootstrapManager
unfoldable pub new_bootstrap_manager :
    Libp2p → Bytes → List Bytes → Result AddrError BootstrapManager
new_bootstrap_manager lib self addrs = with_peers (parse_each lib self addrs)

-- ConnectAll: each peer with whether its connection succeeded, and the count.
unfoldable pub connect_each : (AddrInfo → Bool) → List AddrInfo → ℕ → List (AddrInfo × Bool) × ℕ
connect_each connects [] count = ([], count)
connect_each connects (info ∷ infos) count =
    let (results, total) =
      connect_each connects infos (if connects info then suc count else count) in
    ((info, connects info) ∷ results, total)

unfoldable pub connect_all :
    (AddrInfo → Bool) → BootstrapManager → BootstrapManager × List (AddrInfo × Bool)
connect_all connects bm =
    let (results, total) = connect_each connects bm.peers bm.connected_count in
    (record bm { connected_count = total }, results)

-- The loop of maintainLoop over the peers: whether one is connected, and those that are not.
unfoldable pub disconnected : List Bytes → List AddrInfo → List AddrInfo
disconnected connected [] = []
disconnected connected (info ∷ infos) =
    let rest = disconnected connected infos in
    if contains info.id connected then rest else info ∷ rest

unfoldable pub has_bootstrap : List Bytes → List AddrInfo → Bool
has_bootstrap connected [] = false
has_bootstrap connected (info ∷ infos) = contains info.id connected || has_bootstrap connected infos

unfoldable pub any_connects : (AddrInfo → Bool) → List AddrInfo → Bool
any_connects connects [] = false
any_connects connects (info ∷ infos) = connects info || any_connects connects infos

-- The end of a tick of maintainLoop that slept: `none` ends the loop.
unfoldable pub reconnect :
    (AddrInfo → Bool) → List AddrInfo → Backoff × Option SleepError → Option Backoff
reconnect connects infos (b, some e) = none
reconnect connects infos (b, none) = some (if any_connects connects infos then reset b else b)

abbrev pub retry_with : (AddrInfo → Bool) → Bool → List AddrInfo → Backoff → Option Backoff
retry_with connects cancels [] b = some b
retry_with connects cancels (info ∷ infos) b = reconnect connects (info ∷ infos) (sleep cancels b)

-- One tick of maintainLoop
unfoldable pub maintain_tick :
    List Bytes → (AddrInfo → Bool) → Bool → BootstrapManager → Backoff → Option Backoff
maintain_tick connected connects cancels bm b =
    if has_bootstrap connected bm.peers
    then some (reset b)
    else retry_with connects cancels (disconnected connected bm.peers) b

-- No peer has the ID of the host.
abbrev pub Others : Bytes → Result AddrError (List AddrInfo) → Type 0
Others self (err e) = Unit
Others self (ok infos) = All (λ (i : AddrInfo). (i.id == self) ≡ false) infos

parse_one-Others :
    (self : Bytes) (one : Result AddrError AddrInfo) (rest : Result AddrError (List AddrInfo))
    → Others self rest
    → Others self (parse_one self one rest)
unfolding parse_one
parse_one-Others self (err e) rest h = tt
parse_one-Others self (ok info) (err e) h = tt
parse_one-Others self (ok info) (ok more) h =
    if_intro (Others self) (info.id == self) _ _ (λ e. h) (λ e. (e, h))

-- No bootstrap peer is the host itself.
parse_each-Others :
    (lib : Libp2p) (self : Bytes) (addrs : List Bytes) → Others self (parse_each lib self addrs)
unfolding parse_each
parse_each-Others lib self [] = tt
parse_each-Others lib self (raw ∷ addrs) =
    if_intro (Others self) (is_empty raw) _ _ (λ e. parse_each-Others lib self addrs)
      (λ e.
        parse_one-Others self (parse_peer_addr lib raw []) (parse_each lib self addrs)
          (parse_each-Others lib self addrs))

-- The connections that succeeded.
abbrev pub successes : List (AddrInfo × Bool) → ℕ
successes [] = 0
successes ((info, done) ∷ results) = (if done then 1 else 0) + successes results

-- ConnectAll counts exactly the connections that succeed, and has a result for each peer.
connect_each_lem :
    (connects : AddrInfo → Bool) (infos : List AddrInfo) (count : ℕ)
    → ((connect_each connects infos count).1
        ≡ count + successes (connect_each connects infos count).0)
      × (length (connect_each connects infos count).0 ≡ length infos)
unfolding connect_each
connect_each_lem connects [] count = (omega arith, refl)
connect_each_lem connects (info ∷ infos) count =
    let rest = connect_each_lem connects infos (if connects info then suc count else count) in
    (ground (arith, rest.0), ap suc rest.1)
