-- ===== src/Dht/State.antt =====
-- The configuration, the messages and the state of the DHT manager (internal/network/p2p/dht.go).
use skall.Base.{
  ℕ, ◌^◌, Bool, false, not, ◌&&◌, ◌||◌, Option, none, some, List, ltb, if◌then◌else◌, ◌==◌, Result,
  ok, err,
}
use skall.Bytes.{Bytes, Bytes-eq, lit, is_empty, trim_space, to_lower}
use skall.Dict.{Dict, empty}

abbrev pub k_bucket_size : ℕ
k_bucket_size = 20

abbrev pub second : ℕ
second = 1000000000

-- d > 0 on a signed 64-bit duration
abbrev pub is_positive : ℕ → Bool
is_positive d = ltb 0 d && ltb d (2 ^ 63)

pub record DhtConfig : Type 0 where
  pub mode : Bytes
  pub protocol_prefix : Bytes
  pub namespace : Bytes
  pub poll_interval : ℕ
  pub record_ttl : ℕ

-- DefaultDHTConfig
abbrev pub default_config : DhtConfig
default_config = record {
  mode = lit "auto";
  protocol_prefix = lit "/skall/kad/1.0.0";
  namespace = lit "skall.rendezvous.v2";
  poll_interval = 30000000000;
  record_ttl = 900000000000;
}

-- peer.AddrInfo
pub record AddrInfo : Type 0 where
  pub id : Bytes
  pub addrs : List Bytes

pub data DhtMessageType : Type 0 where
  ping pong find_node find_node_resp advertise find_providers find_providers_resp : DhtMessageType
  unknown : Bytes → DhtMessageType

-- `ttl_sec` is the 64-bit pattern of a signed number.
pub record DhtMessage : Type 0 where
  pub type : DhtMessageType
  pub sender : AddrInfo
  pub target : Bytes
  pub namespace : Bytes
  pub peers : List AddrInfo
  pub timestamp : ℕ
  pub ttl_sec : ℕ

pub record ProviderRecord : Type 0 where
  pub info : AddrInfo
  pub expires_at : ℕ

-- `host` is the host's ID and addresses.
pub record Manager : Type 0 where
  pub host : AddrInfo
  pub cfg : DhtConfig
  pub routing_table : Dict Bytes AddrInfo
  pub providers : Dict Bytes (Dict Bytes ProviderRecord)
  pub closed : Bool

pub data DhtError : Type 0 where
  unknown_mode : Bytes → DhtError

abbrev pub is_mode : Bytes → Bool
is_mode mode =
    mode == lit "auto" || mode == lit "client" || mode == lit "server" || mode == lit "disabled"

-- The mode that NewDHTManager reads from the configuration.
unfoldable pub mode_of : Bytes → Bytes
mode_of text = let mode = to_lower (trim_space text) in if is_empty mode then lit "auto" else mode

-- The defaults of NewDHTManager for what the configuration leaves out.
unfoldable pub with_defaults : Bytes → DhtConfig → DhtConfig
with_defaults mode cfg = record {
  mode = mode;
  protocol_prefix =
      if is_empty cfg.protocol_prefix then lit "/skall/kad/1.0.0" else cfg.protocol_prefix;
  namespace = if is_empty cfg.namespace then lit "skall.rendezvous.v2" else cfg.namespace;
  poll_interval = if is_positive cfg.poll_interval then cfg.poll_interval else 30000000000;
  record_ttl = if is_positive cfg.record_ttl then cfg.record_ttl else 900000000000;
}

abbrev pub new_manager : AddrInfo → DhtConfig → Manager
new_manager host cfg = record {
  host = host;
  cfg = cfg;
  routing_table = empty;
  providers = empty;
  closed = false;
}

-- NewDHTManager: no manager when the mode is "disabled", in any case.
unfoldable pub new_dht_manager : AddrInfo → DhtConfig → Result DhtError (Option Manager)
new_dht_manager host cfg =
    if to_lower cfg.mode == lit "disabled"
    then ok none
    else if not (is_mode (mode_of cfg.mode))
    then err (unknown_mode cfg.mode)
    else ok (some (new_manager host (with_defaults (mode_of cfg.mode) cfg)))
