-- ===== src/Dht/Expiry.antt =====
-- How long a provider is found in the records (internal/network/p2p/dht.go).
use skall.Base.{
  ℕ, ◌≡◌, refl, ap, Bool, false, not, ◌&&◌, ◌||◌, Option, none, some, List, [], ◌∷◌, arith, ltb,
  if◌then◌else◌, ◌==◌, contains, eq_iff, IsDistinct,
}
use skall.Bytes.{Bytes, Bytes-eq}
use skall.Dict.{Dict, get, get-delete}
use skall.Dht.State.{AddrInfo, ProviderRecord}
use skall.Dht.Dists.{ids}
use skall.Dht.Providers.{take_record, live_records}

-- A record that has not expired.
abbrev pub live : ℕ → Option ProviderRecord → Option ProviderRecord
live now none = none
live now (some rec) = if ltb rec.expires_at now then none else some rec

get-take_record :
    (now : ℕ) (j k : Bytes) (found : Option ProviderRecord) (bucket : Dict Bytes ProviderRecord)
    (out : List AddrInfo)
    → get k (take_record now j found (bucket, out)).0 ≡ (
        if j == k
        then elim (live now found) [
          | none ↦ elim found [ none ↦ get k bucket | some rec ↦ none ]
          | some rec ↦ get k bucket
        ]
        else get k bucket)
unfolding take_record
get-take_record now j k none bucket out = ground arith
get-take_record now j k (some rec) bucket out = ground (arith, get-delete k j bucket)

get-live_records :
    (now : ℕ) (order : List Bytes) (bucket : Dict Bytes ProviderRecord) (k : Bytes)
    → IsDistinct order
    → get k (live_records now order bucket).0
      ≡ (if contains k order then live now (get k bucket) else get k bucket)
unfolding live_records
get-live_records now [] bucket k d = refl
get-live_records now (j ∷ order) bucket k (fresh, d) =
    let rest = live_records now order bucket in
    ground (
      arith,
      get-take_record now j k (get j bucket) rest.0 rest.1,
      get-live_records now order bucket k d,
      eq_iff j k,
      fresh,
    )

-- The key of a record is the ID of its provider.
abbrev pub IsKeyedBucket : Dict Bytes ProviderRecord → Type 0
IsKeyedBucket bucket =
    (k : Bytes) (rec : ProviderRecord) → get k bucket ≡ some rec → rec.info.id ≡ k

abbrev pub is_live : ℕ → Option ProviderRecord → Bool
is_live now none = false
is_live now (some rec) = not (ltb rec.expires_at now)

contains-take_record :
    (now : ℕ) (j k : Bytes) (found : Option ProviderRecord) (bucket b : Dict Bytes ProviderRecord)
    (out : List AddrInfo)
    → IsKeyedBucket bucket
    → get j bucket ≡ found
    → contains k (ids (take_record now j found (b, out)).1)
      ≡ (j == k && is_live now found || contains k (ids out))
unfolding take_record
contains-take_record now j k none bucket b out keyed here = ground arith
contains-take_record now j k (some rec) bucket b out keyed here =
    ground (arith, ap (λ i. i == k) (keyed j rec here))

pub contains-live_records :
    (now : ℕ) (order : List Bytes) (bucket : Dict Bytes ProviderRecord) (k : Bytes)
    → IsKeyedBucket bucket
    → contains k (ids (live_records now order bucket).1)
      ≡ (contains k order && is_live now (get k bucket))
unfolding live_records
contains-live_records now [] bucket k keyed = refl
contains-live_records now (j ∷ order) bucket k keyed =
    let rest = live_records now order bucket in
    ground (
      arith,
      contains-take_record now j k (get j bucket) bucket rest.0 rest.1 keyed refl,
      contains-live_records now order bucket k keyed,
      eq_iff j k,
    )
