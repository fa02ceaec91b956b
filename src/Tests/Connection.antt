-- ===== src/Tests/Connection.antt =====
-- The properties of connection.Manager while a peer is dialled twice.
use skall.Base.{true, [], ◌∷◌}
use skall.Bytes.{lit}
use skall.Connection.Manager.{Manager, Dial, new_manager, connect, disconnect, finish_dial}
use skall.Connection.Dials.{IsLive}
use skall.Connection.Reach.{Reach, Step, Reach-IsLive}

abbrev dialled : Manager
dialled = (connect new_manager 1 (lit "bob") (lit "10.0.0.2:9000")).0

abbrev dropped : Manager
dropped = (disconnect dialled (lit "bob")).0

Reach-IsLive_example : IsLive (finish_dial dropped 3 0 true)
Reach-IsLive_example = Reach-IsLive (
    Reach.after
      (Reach.after
        (Reach.after Reach.fresh (Step.connects new_manager 1 (lit "bob") (lit "10.0.0.2:9000")))
        (Step.disconnects dialled (lit "bob")))
      (Step.finishes dropped 3 0 true))

-- The first dial is cancelled and has not come back yet.
abbrev stale : Dial
stale = record { peer_id = lit "bob"; endpoint = lit "10.0.0.2:9000"; cancelled = true }

abbrev waiting : Manager
waiting = record { peers = []; dials = (0, stale) ∷ []; next = 1 }
