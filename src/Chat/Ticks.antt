-- ===== src/Chat/Ticks.antt =====
-- Ticks of monitorPeers (internal/chat/p2p_service.go).
use skall.Base.{
  ℕ, ◌≡◌, refl, ap, ◌∙◌, Bool, true, false, not, Option, some, List, arith, length, nat_eq,
  if◌then◌else◌,
}
use skall.Bytes.{Bytes}
use skall.Storage.Rows.{Times}
use skall.Chat.Subscribers.{Subscribers}
use skall.Chat.Safe.{IsSafe}
use skall.Chat.Node.{
  Node, Event, ConnectionStatus, connecting, connected, disconnected, peer_connected,
  status_changed,
}
use skall.Chat.Inbound.{status_eq, upsert_each, then_publish, monitor_tick}
use skall.Chat.Status.{published-IsSafe}

status_eq_refl : (s : ConnectionStatus) → status_eq s s ≡ true
unfolding status_eq
status_eq_refl disconnected = refl
status_eq_refl connecting = refl
status_eq_refl connected = refl

then_publish-IsSafe :
    (test : Bool) (ev : Event) (n : Node)
    → IsSafe n.subscribers
    → (subs : Subscribers Event) × (then_publish test ev (some n)
        ≡ some (record n { subscribers = subs }))
      × IsSafe subs
then_publish-IsSafe true ev n safe = published-IsSafe ev n safe
then_publish-IsSafe false ev n safe = (n.subscribers, refl, safe)

-- The status that a tick sets for the connected peers.
abbrev pub status_for : List Bytes → ConnectionStatus
status_for pids = if nat_eq (length pids) 0 then connecting else connected

module _ (times : Times) where
  tick-IsSafe :
      (fault : Bytes → Option Bytes) (now : ℕ) (pids : List Bytes) (n : Node)
      → IsSafe n.subscribers
      → (subs : Subscribers Event) × (monitor_tick times fault now pids n
          ≡ some (record n {
            store = upsert_each times fault now pids n.store;
            status = status_for pids;
            last_count = length pids;
            subscribers = subs;
          }))
        × IsSafe subs
  unfolding monitor_tick
  tick-IsSafe fault now pids n safe =
      let n' : Node = record n {
        store = upsert_each times fault now pids n.store;
        status = status_for pids;
        last_count = length pids;
      } in
      let (subs, out, safe') =
        then_publish-IsSafe (not (status_eq n.status (status_for pids)))
          (status_changed (status_for pids)) n' safe in
      let (subs', out', safe'') =
        then_publish-IsSafe (not (nat_eq (length pids) n.last_count)) peer_connected
          (record n' { subscribers = subs }) safe' in
      (
        subs',
        ap (then_publish (not (nat_eq (length pids) n.last_count)) peer_connected) out ∙ out',
        safe'',
      )

  quiet_tick :
      (fault : Bytes → Option Bytes) (now : ℕ) (pids : List Bytes) (n : Node)
      → let n' : Node = record n { status = status_for pids; last_count = length pids } in
        monitor_tick times fault now pids n'
        ≡ some (record n' { store = upsert_each times fault now pids n.store })
  unfolding monitor_tick
  quiet_tick fault now pids n =
      let same : nat_eq (length pids) (length pids) ≡ true = ground arith in
      rw (same, status_eq_refl (status_for pids)) refl

  -- With safe subscribers a tick of the monitor does not panic, and a second one that finds the
  -- same connected peers publishes nothing: it changes the store alone.
  pub monitor_tick_again :
      (fault fault' : Bytes → Option Bytes) (now now' : ℕ) (pids : List Bytes) (n : Node)
      → IsSafe n.subscribers
      → (n' : Node) × (monitor_tick times fault now pids n ≡ some n')
        × (n'.status ≡ status_for pids)
        × (monitor_tick times fault' now' pids n'
            ≡ some (record n' { store = upsert_each times fault' now' pids n'.store }))
  monitor_tick_again fault fault' now now' pids n safe =
      let (subs, out, safe') = tick-IsSafe fault now pids n safe in
      (
        _,
        out,
        refl,
        quiet_tick fault' now' pids
            (record n { store = upsert_each times fault now pids n.store; subscribers = subs }),
      )
