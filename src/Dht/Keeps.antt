-- ===== src/Dht/Keeps.antt =====
-- The invariant of the DHT manager (internal/network/p2p/dht.go), whatever the other nodes send.
use mathlib.Core.Option.{some-injective}
use skall.Base.{
  ℕ, ◌+◌, ◌≡◌, refl, Bool, true, false, ◌||◌, Option, none, some, List, [], ◌∷◌, arith,
  if◌then◌else◌, if_intro, ◌==◌, eq_iff,
}
use skall.Bytes.{Bytes, Bytes-eq, is_empty}
use skall.Dict.{Dict, get, has, put, delete, get-put, get-delete, get-empty}
use skall.Dht.State.{AddrInfo, DhtConfig, ProviderRecord, Manager, new_manager}
use skall.Dht.Table.{no_addrs, add_peer, drop_provider, remove_peer}
use skall.Dht.Providers.{
  store_provider, bucket_of, take_record, live_records, providers_in, get_local_providers,
}
use skall.Dht.Dists.{IsKeyed}
use skall.Dht.Expiry.{IsKeyedBucket}

pub record IsRouted (dm : Manager) : Type 0 where
  pub keyed : IsKeyed dm.routing_table
  pub not_self : has dm.host.id dm.routing_table ≡ false
  pub addressed :
      (k : Bytes) (info : AddrInfo) → get k dm.routing_table ≡ some info → no_addrs info ≡ false
  pub buckets :
      (ns : Bytes) (bucket : Dict Bytes ProviderRecord)
      → get ns dm.providers ≡ some bucket
      → IsKeyedBucket bucket
  pub named : has [] dm.providers ≡ false

pub new_manager-IsRouted : (host : AddrInfo) (cfg : DhtConfig) → IsRouted (new_manager host cfg)
new_manager-IsRouted host cfg = record {
  keyed = λ k info h. absurd (ground (arith, get-empty {K = Bytes} {V = AddrInfo} k));
  not_self = ground (arith, get-empty {K = Bytes} {V = AddrInfo} host.id);
  addressed = λ k info h. absurd (ground (arith, get-empty {K = Bytes} {V = AddrInfo} k));
  buckets = λ ns bucket h.
      absurd (ground (arith, get-empty {K = Bytes} {V = Dict Bytes ProviderRecord} ns));
  named = ground (arith, get-empty {K = Bytes} {V = Dict Bytes ProviderRecord} []);
}

pub add_peer-IsRouted : (info : AddrInfo) (dm : Manager) → IsRouted dm → IsRouted (add_peer info dm)
unfolding add_peer
add_peer-IsRouted info dm h =
    if_intro IsRouted (info.id == dm.host.id || no_addrs info) _ _ (λ e. h)
      λ e. record {
        keyed = λ k i there.
            ground (arith, get-put k info.id info dm.routing_table, h.keyed k i, eq_iff info.id k);
        not_self = ground (arith, get-put dm.host.id info.id info dm.routing_table, h.not_self, e);
        addressed = λ k i there.
            ground (arith, get-put k info.id info dm.routing_table, h.addressed k i, e);
        buckets = h.buckets;
        named = h.named;
      }

get-drop_provider :
    (pid ns : Bytes) (providers : Dict Bytes (Dict Bytes ProviderRecord))
    → get ns (drop_provider pid providers)
      ≡ elim (get ns providers) [ none ↦ none | some bucket ↦ some (delete pid bucket) ]
unfolding drop_provider get
get-drop_provider pid ns [] = refl
get-drop_provider pid ns ((n, bucket) ∷ providers) =
    ground (arith, get-drop_provider pid ns providers)

delete-IsKeyedBucket :
    (pid : Bytes) (bucket : Dict Bytes ProviderRecord)
    → IsKeyedBucket bucket
    → IsKeyedBucket (delete pid bucket)
delete-IsKeyedBucket pid bucket h k rec there = ground (arith, get-delete k pid bucket, h k rec)

keyed_of : {b c : Dict Bytes ProviderRecord} → some b ≡ some c → IsKeyedBucket b → IsKeyedBucket c
keyed_of {b} {c} e h = rw (← some-injective b c e) h

drop_provider-keyed :
    (pid : Bytes) (found : Option (Dict Bytes ProviderRecord)) (b : Dict Bytes ProviderRecord)
    → ((bucket : Dict Bytes ProviderRecord) → found ≡ some bucket → IsKeyedBucket bucket)
    → elim found [ none ↦ none | some bucket ↦ some (delete pid bucket) ] ≡ some b
    → IsKeyedBucket b
drop_provider-keyed pid none b h e = absurd (ground arith)
drop_provider-keyed pid (some bucket) b h e =
    keyed_of e (delete-IsKeyedBucket pid bucket (h bucket refl))

pub remove_peer-IsRouted :
    (pid : Bytes) (dm : Manager) → IsRouted dm → IsRouted (remove_peer pid dm)
unfolding remove_peer
remove_peer-IsRouted pid dm h = record {
  keyed = λ k i there. ground (arith, get-delete k pid dm.routing_table, h.keyed k i);
  not_self = ground (arith, get-delete dm.host.id pid dm.routing_table, h.not_self);
  addressed = λ k i there. ground (arith, get-delete k pid dm.routing_table, h.addressed k i);
  buckets = λ ns b there.
      drop_provider-keyed pid (get ns dm.providers) b (h.buckets ns)
        (rw (← get-drop_provider pid ns dm.providers) there);
  named = ground (arith, get-drop_provider pid [] dm.providers, h.named);
}

pub bucket_of-keyed :
    (ns : Bytes) (dm : Manager) → IsRouted dm → IsKeyedBucket (bucket_of (get ns dm.providers))
bucket_of-keyed ns dm h = by_found (get ns dm.providers) (h.buckets ns)
  where
    by_found :
        (found : Option (Dict Bytes ProviderRecord))
        → ((bucket : Dict Bytes ProviderRecord) → found ≡ some bucket → IsKeyedBucket bucket)
        → IsKeyedBucket (bucket_of found)
    by_found none h =
        λ k rec there. absurd (ground (arith, get-empty {K = Bytes} {V = ProviderRecord} k))
    by_found (some bucket) h = h bucket refl

chosen-keyed :
    (t : Bool) (bucket : Dict Bytes ProviderRecord) (found : Option (Dict Bytes ProviderRecord))
    (b : Dict Bytes ProviderRecord)
    → IsKeyedBucket bucket
    → (found ≡ some b → IsKeyedBucket b)
    → (if t then some bucket else found) ≡ some b
    → IsKeyedBucket b
chosen-keyed true bucket found b fits h e = keyed_of e fits
chosen-keyed false bucket found b fits h e = h e

-- A namespace takes a new bucket.
put_bucket-IsRouted :
    (ns : Bytes) (bucket : Dict Bytes ProviderRecord) (dm : Manager)
    → is_empty ns ≡ false
    → IsKeyedBucket bucket
    → IsRouted dm
    → IsRouted (record dm { providers = put ns bucket dm.providers })
put_bucket-IsRouted ns bucket dm given fits h = record {
  keyed = h.keyed;
  not_self = h.not_self;
  addressed = h.addressed;
  buckets = λ n b there.
      chosen-keyed (ns == n) bucket (get n dm.providers) b fits (h.buckets n b)
        (rw (← get-put n ns bucket dm.providers) there);
  named = ground (arith, get-put [] ns bucket dm.providers, h.named, eq_iff ns [], given);
}

pub put-IsKeyedBucket :
    (info : AddrInfo) (expires : ℕ) (bucket : Dict Bytes ProviderRecord)
    → IsKeyedBucket bucket
    → IsKeyedBucket (put info.id (record { info = info; expires_at = expires }) bucket)
put-IsKeyedBucket info expires bucket h k rec there = ground (
  arith,
  get-put k info.id (record { info = info; expires_at = expires }) bucket,
  h k rec,
  eq_iff info.id k,
)

pub store_provider-IsRouted :
    (now : ℕ) (ns : Bytes) (info : AddrInfo) (ttl : ℕ) (dm : Manager)
    → IsRouted dm
    → IsRouted (store_provider now ns info ttl dm)
unfolding store_provider
store_provider-IsRouted now ns info ttl dm h =
    if_intro IsRouted (is_empty ns || is_empty info.id || no_addrs info) _ _ (λ e. h)
      λ e.
        put_bucket-IsRouted ns _ dm (ground arith)
          (put-IsKeyedBucket info (now + ttl) (bucket_of (get ns dm.providers))
            (bucket_of-keyed ns dm h))
          h

get-take_record_of :
    (now : ℕ) (j k : Bytes) (found : Option ProviderRecord) (bucket : Dict Bytes ProviderRecord)
    (out : List AddrInfo) {rec : ProviderRecord}
    → get k (take_record now j found (bucket, out)).0 ≡ some rec
    → get k bucket ≡ some rec
unfolding take_record
get-take_record_of now j k none bucket out h = h
get-take_record_of now j k (some found) bucket out h = ground (arith, get-delete k j bucket)

live_records-keyed :
    (now : ℕ) (order : List Bytes) (bucket : Dict Bytes ProviderRecord)
    → IsKeyedBucket bucket
    → IsKeyedBucket (live_records now order bucket).0
unfolding live_records
live_records-keyed now [] bucket h k rec there = h k rec there
live_records-keyed now (j ∷ order) bucket h k rec there =
    let rest = live_records now order bucket in
    live_records-keyed now order bucket h k rec
      (get-take_record_of now j k (get j bucket) rest.0 rest.1 there)

is_empty-has :
    (ns : Bytes) (dm : Manager) → IsRouted dm → has ns dm.providers ≡ true → is_empty ns ≡ false
is_empty-has [] dm h there = ground (arith, h.named)
is_empty-has (b ∷ ns) dm h there = refl

providers_in-IsRouted :
    (now : ℕ) (order : List Bytes) (ns : Bytes) (found : Option (Dict Bytes ProviderRecord))
    (dm : Manager)
    → get ns dm.providers ≡ found
    → IsRouted dm
    → IsRouted (providers_in now order ns found dm).0
unfolding providers_in
providers_in-IsRouted now order ns none dm here h = h
providers_in-IsRouted now order ns (some bucket) dm here h =
    put_bucket-IsRouted ns (live_records now order bucket).0 dm
      (is_empty-has ns dm h (ground (arith, here)))
      (live_records-keyed now order bucket (h.buckets ns bucket here)) h

pub get_local_providers-IsRouted :
    (now : ℕ) (order : List Bytes) (ns : Bytes) (dm : Manager)
    → IsRouted dm
    → IsRouted (get_local_providers now order ns dm).0
unfolding get_local_providers
get_local_providers-IsRouted now order ns dm h =
    providers_in-IsRouted now order ns (get ns dm.providers) dm refl h
