-- ===== src/Connection/Reach.antt =====
-- Any interleaving of Connect, Disconnect, Forget and the ends of dials.
use skall.Base.{
  ap, ℕ, ◌≡◌, ◌<◌, ◌∙◌, Bool, false, some, arith, eq_iff, eq_refl, ℕ-eq, if◌then◌else◌,
}
use skall.Bytes.{Bytes, Bytes-eq}
use skall.Dict.{get, delete, get-put}
use skall.Connection.Manager.{
  State, connecting, connected, failed, Entry, Dial, Manager, new_manager, start_dial, connect,
  set_state, mark_state, finish_found, finish_dial, disconnect, forget, status,
}
use skall.Connection.Dials.{
  IsLive, new_manager-IsLive, connect-IsLive, disconnect-IsLive, forget-IsLive, finish_dial-IsLive,
}

-- One critical section of a manager, or the end of one dial.
pub data Step : Manager → Manager → Type 0 where
  connects : (m : Manager) (now : ℕ) (p e : Bytes) → Step m (connect m now p e).0
  disconnects : (m : Manager) (p : Bytes) → Step m (disconnect m p).0
  forgets : (m : Manager) (p : Bytes) → Step m (forget m p)
  finishes : (m : Manager) (now k : ℕ) (reached : Bool) → Step m (finish_dial m now k reached)

-- The managers that calls and dials can leave behind, in any order.
pub data Reach : Manager → Type 0 where
  fresh : Reach new_manager
  after : {m n : Manager} → Reach m → Step m n → Reach n

step-IsLive : {m n : Manager} → Step m n → IsLive m → IsLive n
step-IsLive (connects m now p e) h = connect-IsLive m now p e h
step-IsLive (disconnects m p) h = disconnect-IsLive m p h
step-IsLive (forgets m p) h = forget-IsLive m p h
step-IsLive (finishes m now k reached) h = finish_dial-IsLive m now k reached h

-- In every manager that calls of Connect, Disconnect and Forget and the ends of dials, in any order,
-- can leave behind, each entry's dial has a number that was given out, and an entry that says
-- connecting has a dial of its peer in flight.
pub Reach-IsLive : {m : Manager} → Reach m → IsLive m
Reach-IsLive fresh = new_manager-IsLive
Reach-IsLive (after r step) = step-IsLive step (Reach-IsLive r)

-- What an entry that is there says after markState.
status-mark_state :
    (m : Manager) (now : ℕ) (p : Bytes) (next : State) (entry : Entry)
    → get p m.peers ≡ some entry
    → get p (mark_state m now p next).peers ≡ some (record entry { state = next; updated_at = now })
unfolding mark_state set_state
status-mark_state m now p next entry there =
    ap (λ x. get p (set_state m now p next x).peers) there
    ∙ ground
        (arith, get-put p p (record entry { state = next; updated_at = now }) m.peers, eq_refl p)

-- A dial that is still in flight when its peer is dialled again settles the new entry when it ends: the
-- entry of the second dial then says what the first dial found, and the dial it waits for is another.
finish_dial-start_dial :
    (m : Manager) (now later k : ℕ) (reached : Bool) (d : Dial) (e : Bytes)
    → get k m.dials ≡ some d
    → k < m.next
    → status (finish_dial (start_dial m now d.peer_id e) later k reached) d.peer_id
      ≡ some (record {
        peer_id = d.peer_id;
        endpoint = e;
        state = if reached then connected else failed;
        updated_at = later;
        dial = m.next;
      })
unfolding status finish_dial finish_found start_dial
finish_dial-start_dial m now later k reached d e there old =
    ap (λ x. get d.peer_id (finish_found (start_dial m now d.peer_id e) later k reached x).peers)
      still
    ∙ status-mark_state
        (record (start_dial m now d.peer_id e) {
          dials = delete k (start_dial m now d.peer_id e).dials;
        })
        later d.peer_id (if reached then connected else failed) entry
        (ground (arith, get-put d.peer_id d.peer_id entry m.peers, eq_refl d.peer_id))
  where
    entry : Entry
    entry = record {
      peer_id = d.peer_id;
      endpoint = e;
      state = connecting;
      updated_at = now;
      dial = m.next;
    }

    dial : Dial
    dial = record { peer_id = d.peer_id; endpoint = e; cancelled = false }

    still : get k (start_dial m now d.peer_id e).dials ≡ some d
    still = ground (arith, get-put k m.next dial m.dials, eq_iff m.next k, there, old)
