-- ===== src/Dht/Providers.antt =====
-- storeProvider and getLocalProviders (internal/network/p2p/dht.go).
use skall.Base.{ℕ, ◌+◌, ◌||◌, Option, none, some, List, [], ◌∷◌, ltb, if◌then◌else◌}
use skall.Bytes.{Bytes, Bytes-eq, is_empty}
use skall.Dict.{Dict, empty, get, put, delete}
use skall.Dht.State.{AddrInfo, ProviderRecord, Manager}
use skall.Dht.Table.{no_addrs}

-- bucket, ok := dm.providers[ns], made when it is not there
abbrev pub bucket_of : Option (Dict Bytes ProviderRecord) → Dict Bytes ProviderRecord
bucket_of none = empty
bucket_of (some bucket) = bucket

-- storeProvider; `ttl` is a length of time, which no caller passes as negative.
unfoldable pub store_provider : ℕ → Bytes → AddrInfo → ℕ → Manager → Manager
store_provider now ns info ttl dm =
    if is_empty ns || is_empty info.id || no_addrs info then dm else record dm {
      providers =
          put ns
            (put info.id (record { info = info; expires_at = now + ttl })
              (bucket_of (get ns dm.providers)))
            dm.providers;
    }

-- One turn of the range of getLocalProviders: an expired record is deleted, another is taken.
unfoldable pub take_record :
    ℕ
    → Bytes
    → Option ProviderRecord
    → Dict Bytes ProviderRecord × List AddrInfo
    → Dict Bytes ProviderRecord × List AddrInfo
take_record now pid none (bucket, out) = (bucket, out)
take_record now pid (some rec) (bucket, out) =
    if ltb rec.expires_at now then (delete pid bucket, out) else (bucket, rec.info ∷ out)

-- The range; its order is that of `order`, and `out` is built from its end.
unfoldable pub live_records :
    ℕ → List Bytes → Dict Bytes ProviderRecord → Dict Bytes ProviderRecord × List AddrInfo
live_records now [] bucket = (bucket, [])
live_records now (pid ∷ order) bucket =
    take_record now pid (get pid bucket) (live_records now order bucket)

unfoldable pub providers_in :
    ℕ → List Bytes → Bytes → Option (Dict Bytes ProviderRecord) → Manager → Manager × List AddrInfo
providers_in now order ns none dm = (dm, [])
providers_in now order ns (some bucket) dm =
    let (bucket', out) = live_records now order bucket in
    (record dm { providers = put ns bucket' dm.providers }, out)

-- getLocalProviders
unfoldable pub get_local_providers : ℕ → List Bytes → Bytes → Manager → Manager × List AddrInfo
get_local_providers now order ns dm = providers_in now order ns (get ns dm.providers) dm
