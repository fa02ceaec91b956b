-- ===== src/Dht/Table.antt =====
-- AddPeer and RemovePeer (internal/network/p2p/dht.go).
use skall.Base.{ℕ, Bool, true, false, ◌||◌, [], ◌∷◌, if◌then◌else◌, ◌==◌}
use skall.Bytes.{Bytes, Bytes-eq}
use skall.Dict.{Dict, put, delete, size}
use skall.Dht.State.{AddrInfo, ProviderRecord, Manager}

abbrev pub no_addrs : AddrInfo → Bool
no_addrs info = elim info.addrs [ [] ↦ true | _ ∷ _ ↦ false ]

-- AddPeer
unfoldable pub add_peer : AddrInfo → Manager → Manager
add_peer info dm =
    if info.id == dm.host.id || no_addrs info
    then dm
    else record dm { routing_table = put info.id info dm.routing_table }

-- The loop of RemovePeer over the namespaces.
unfoldable pub drop_provider :
    Bytes → Dict Bytes (Dict Bytes ProviderRecord) → Dict Bytes (Dict Bytes ProviderRecord)
drop_provider pid [] = []
drop_provider pid ((ns, bucket) ∷ providers) = (ns, delete pid bucket) ∷ drop_provider pid providers

-- RemovePeer
unfoldable pub remove_peer : Bytes → Manager → Manager
remove_peer pid dm = record dm {
  routing_table = delete pid dm.routing_table;
  providers = drop_provider pid dm.providers;
}

-- RoutingTableSize
unfoldable pub routing_table_size : Manager → ℕ
routing_table_size dm = size dm.routing_table
