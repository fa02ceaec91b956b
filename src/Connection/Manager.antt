-- ===== src/Connection/Manager.antt =====
-- The data and the critical sections of connection.Manager. A goroutine of `run` is a dial that is in
-- flight, under a number of its own; the number stands for the cancel function that an entry keeps.
use skall.Base.{
  ℕ, suc, Bool, true, false, ◌||◌, Option, none, some, List, [], ◌∷◌, reverse, nat_eq, ℕ-eq,
  if◌then◌else◌,
}
use skall.Bytes.{Bytes, Bytes-eq, is_empty}
use skall.Dict.{Dict, empty, get, put, delete, values}

pub data State : Type 0 where
  disconnected connecting connected failed : State

-- peerState with its PeerStatus
pub record Entry : Type 0 where
  pub peer_id : Bytes
  pub endpoint : Bytes
  pub state : State
  pub updated_at : ℕ
  pub dial : ℕ

pub record Dial : Type 0 where
  pub peer_id : Bytes
  pub endpoint : Bytes
  pub cancelled : Bool

pub record Manager : Type 0 where
  pub peers : Dict Bytes Entry
  pub dials : Dict ℕ Dial
  pub next : ℕ

-- NewManager
abbrev pub new_manager : Manager
new_manager = record { peers = empty; dials = empty; next = 0 }

pub data ConnectError : Type 0 where
  peer_id_required endpoint_required : ConnectError

-- The four bytes that `trim` cuts.
unfoldable pub is_blank_byte : ℕ → Bool
is_blank_byte b = nat_eq b 32 || nat_eq b 9 || nat_eq b 10 || nat_eq b 13

unfoldable pub drop_blank : Bytes → Bytes
drop_blank [] = []
drop_blank (b ∷ s) = let rest = drop_blank s in if is_blank_byte b then rest else b ∷ s

-- trim
unfoldable pub trim : Bytes → Bytes
trim s = reverse (drop_blank (reverse (drop_blank s)))

-- Connect from `connectCtx, cancel :=` on: a new entry, and `go m.run`.
unfoldable pub start_dial : Manager → ℕ → Bytes → Bytes → Manager
start_dial m now peer_id endpoint = record {
  peers =
      put peer_id
        (record {
          peer_id = peer_id;
          endpoint = endpoint;
          state = connecting;
          updated_at = now;
          dial = m.next;
        })
        m.peers;
  dials = put m.next (record { peer_id = peer_id; endpoint = endpoint; cancelled = false }) m.dials;
  next = suc m.next;
}

-- Whether the switch on the state of an existing entry returns.
unfoldable pub is_busy : State → Bool
is_busy connected = true
is_busy connecting = true
is_busy _ = false

unfoldable pub connect_trimmed : Manager → ℕ → Bytes → Bytes → Option Entry → Manager
connect_trimmed m now peer_id endpoint none = start_dial m now peer_id endpoint
connect_trimmed m now peer_id endpoint (some entry) =
    if is_busy entry.state then m else start_dial m now peer_id endpoint

-- Connect
unfoldable pub connect : Manager → ℕ → Bytes → Bytes → Manager × Option ConnectError
connect m now peer_id endpoint =
    let p = trim peer_id in
    let e = trim endpoint in
    if is_empty p
    then (m, some peer_id_required)
    else if is_empty e
    then (m, some endpoint_required)
    else (connect_trimmed m now p e (get p m.peers), none)

unfoldable pub set_state : Manager → ℕ → Bytes → State → Option Entry → Manager
set_state m now peer_id next none = m
set_state m now peer_id next (some entry) = record m {
  peers = put peer_id (record entry { state = next; updated_at = now }) m.peers;
}

-- markState
unfoldable pub mark_state : Manager → ℕ → Bytes → State → Manager
mark_state m now peer_id next = set_state m now peer_id next (get peer_id m.peers)

unfoldable pub finish_found : Manager → ℕ → ℕ → Bool → Option Dial → Manager
finish_found m now k reached none = m
finish_found m now k reached (some d) =
    mark_state (record m { dials = delete k m.dials }) now d.peer_id
      (if reached then connected else failed)

-- The end of `run`: the dial number k came back, with a connection or with an error.
unfoldable pub finish_dial : Manager → ℕ → ℕ → Bool → Manager
finish_dial m now k reached = finish_found m now k reached (get k m.dials)

-- state.cancel()
unfoldable pub cancel_dial : ℕ → Option Dial → Dict ℕ Dial → Dict ℕ Dial
cancel_dial k none dials = dials
cancel_dial k (some d) dials = put k (record d { cancelled = true }) dials

unfoldable pub disconnect_found : Manager → Bytes → Option Entry → Manager
disconnect_found m peer_id none = m
disconnect_found m peer_id (some entry) = record m {
  peers = delete peer_id m.peers;
  dials = cancel_dial entry.dial (get entry.dial m.dials) m.dials;
}

-- Disconnect
unfoldable pub disconnect : Manager → Bytes → Manager × Option ConnectError
disconnect m peer_id =
    let p = trim peer_id in
    if is_empty p then (m, some peer_id_required) else (disconnect_found m p (get p m.peers), none)

-- Forget
unfoldable pub forget : Manager → Bytes → Manager
forget m peer_id = record m { peers = delete peer_id m.peers }

-- Status
unfoldable pub status : Manager → Bytes → Option Entry
status m peer_id = get peer_id m.peers

-- Snapshot
unfoldable pub snapshot : Manager → List Entry
snapshot m = values m.peers
