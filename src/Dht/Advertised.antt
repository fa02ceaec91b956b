-- ===== src/Dht/Advertised.antt =====
-- A provider that was stored, as getLocalProviders finds it later (internal/network/p2p/dht.go).
use skall.Base.{
  ℕ, ◌+◌, ◌≡◌, refl, ◌∙◌, true, false, not, none, some, List, arith, ltb, if◌then◌else◌, ◌==◌,
  contains, ok,
}
use skall.Bytes.{Bytes, Bytes-eq, bytes_eq, is_empty, lit, to_lower}
use skall.Dict.{Dict, get, put, get-put_self}
use skall.Dht.State.{
  AddrInfo, DhtConfig, ProviderRecord, Manager, mode_of, with_defaults, new_manager,
  new_dht_manager,
}
use skall.Dht.Table.{no_addrs}
use skall.Dht.Providers.{store_provider, bucket_of, providers_in, get_local_providers}
use skall.Dht.Dists.{ids}
use skall.Dht.Expiry.{IsKeyedBucket, contains-live_records}
use skall.Dht.Keeps.{IsRouted, put-IsKeyedBucket, bucket_of-keyed}

-- In a manager that meets the invariant, a provider with an ID and an address that is stored under
-- a non-empty name with a time to live is found there, by a range that visits it, up to the moment
-- when that time has passed, and not after it.
pub store_provider-get_local_providers :
    (now ttl later : ℕ) (order : List Bytes) (ns : Bytes) (info : AddrInfo) (dm : Manager)
    → IsRouted dm
    → is_empty ns ≡ false
    → is_empty info.id ≡ false
    → no_addrs info ≡ false
    → contains info.id order ≡ true
    → contains info.id
        (ids (get_local_providers later order ns (store_provider now ns info ttl dm)).1)
      ≡ not (ltb (now + ttl) later)
store_provider-get_local_providers now ttl later order ns info dm h named known addressed visited =
    unfold store_provider get_local_providers providers_in in
    rw (named, known, addressed, get-put_self ns bucket dm.providers)
      (contains-live_records later order bucket info.id keyed
        ∙ rw (visited, get-put_self info.id rec (bucket_of (get ns dm.providers))) refl)
  where
    rec : ProviderRecord
    rec = record { info = info; expires_at = now + ttl }

    bucket : Dict Bytes ProviderRecord
    bucket = put info.id rec (bucket_of (get ns dm.providers))

    keyed : IsKeyedBucket bucket
    keyed =
        put-IsKeyedBucket info (now + ttl) (bucket_of (get ns dm.providers))
          (bucket_of-keyed ns dm h)

-- When the mode of the configuration is "disabled" once it is trimmed and in lower case, NewDHTManager gives no
-- manager if the mode has no blanks around it, and else a manager, whose mode is "disabled".
pub new_dht_manager_disabled :
    (host : AddrInfo) (cfg : DhtConfig)
    → mode_of cfg.mode ≡ lit "disabled"
    → new_dht_manager host cfg
      ≡ ok (
          if to_lower cfg.mode == lit "disabled"
          then none
          else some (new_manager host (with_defaults (lit "disabled") cfg)))
unfolding new_dht_manager bytes_eq
new_dht_manager_disabled host cfg mode = rw mode (ground arith)
