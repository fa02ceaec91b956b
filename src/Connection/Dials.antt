-- ===== src/Connection/Dials.antt =====
-- The invariant on the entries and the dials of connection.Manager.
use skall.Base.{
  ap, Bool-cases, ℕ, ◌≡◌, ◌≢◌, ◌<◌, ◌∙◌, refl, sym, Bool, true, false, Option, none, some, arith,
  eq_iff, eq_refl, ◌==◌, ℕ-eq, if◌then◌else◌, if_intro, ◌⊎◌, inl, inr,
}
use skall.Bytes.{Bytes, Bytes-eq, is_empty}
use skall.Dict.{Dict, get, put, delete, get-empty, get-put, get-delete}
use skall.Connection.Manager.{
  State, connecting, connected, failed, Entry, Dial, Manager, ConnectError, new_manager, trim,
  start_dial, connect_trimmed, connect, set_state, mark_state, finish_found, finish_dial,
  cancel_dial, disconnect_found, disconnect, forget, is_busy,
}

-- The dial that an entry started is in flight, for the entry's own peer.
abbrev pub IsInFlight : Manager → Bytes → Entry → Type 0
IsInFlight m p entry = (d : Dial) × (get entry.dial m.dials ≡ some d) × (d.peer_id ≡ p)

pub record IsLive (m : Manager) : Type 0 where
  pub numbered : (p : Bytes) (entry : Entry) → get p m.peers ≡ some entry → entry.dial < m.next
  pub in_flight :
      (p : Bytes) (entry : Entry)
      → get p m.peers ≡ some entry
      → entry.state ≡ connecting
      → IsInFlight m p entry

pub new_manager-IsLive : IsLive new_manager
new_manager-IsLive = record {
  numbered = λ p entry h. absurd (ground (arith, get-empty {K = Bytes} {V = Entry} p));
  in_flight = λ p entry h. absurd (ground (arith, get-empty {K = Bytes} {V = Entry} p));
}

abbrev new_entry : Manager → ℕ → Bytes → Bytes → Entry
new_entry m now p e = record {
  peer_id = p;
  endpoint = e;
  state = connecting;
  updated_at = now;
  dial = m.next;
}

abbrev new_dial : Bytes → Bytes → Dial
new_dial p e = record { peer_id = p; endpoint = e; cancelled = false }

start_dial-IsLive : (m : Manager) (now : ℕ) (p e : Bytes) → IsLive m → IsLive (start_dial m now p e)
unfolding start_dial
start_dial-IsLive m now p e h = record {
  numbered = λ q entry there.
      ground (arith, h.numbered q entry, get-put q p (new_entry m now p e) m.peers);
  in_flight = λ q entry there busy. elim (started q entry there) [
    | inl (same, new) ↦ (new_dial p e, fresh entry (ap Entry.dial new), same)
    | inr old ↦ kept q entry old (h.in_flight q entry old busy)
  ];
}
  where
    started :
        (q : Bytes) (entry : Entry)
        → get q (put p (new_entry m now p e) m.peers) ≡ some entry
        → ((p ≡ q) × (entry ≡ new_entry m now p e)) ⊎ (get q m.peers ≡ some entry)
    started q entry there = ground (arith, get-put q p (new_entry m now p e) m.peers, eq_iff p q)

    fresh :
        (entry : Entry)
        → entry.dial ≡ m.next
        → get entry.dial (put m.next (new_dial p e) m.dials) ≡ some (new_dial p e)
    fresh entry same =
        ground (arith, get-put entry.dial m.next (new_dial p e) m.dials, eq_refl m.next)

    kept :
        (q : Bytes) (entry : Entry)
        → get q m.peers ≡ some entry
        → IsInFlight m q entry
        → IsInFlight (start_dial m now p e) q entry
    kept q entry old (d, there, own) = (
      d,
      ground (
        arith,
        h.numbered q entry old,
        get-put entry.dial m.next (new_dial p e) m.dials,
        eq_iff m.next entry.dial,
        there,
      ),
      own,
    )

-- The peers map after a removal.
without-IsLive :
    (m : Manager) (p : Bytes) → IsLive m → IsLive (record m { peers = delete p m.peers })
without-IsLive m p h = record {
  numbered = λ q entry there. h.numbered q entry (before q entry there);
  in_flight = λ q entry there busy. h.in_flight q entry (before q entry there) busy;
}
  where
    before :
        (q : Bytes) (entry : Entry)
        → get q (delete p m.peers) ≡ some entry
        → get q m.peers ≡ some entry
    before q entry there = ground (arith, get-delete q p m.peers)

pub forget-IsLive : (m : Manager) (p : Bytes) → IsLive m → IsLive (forget m p)
unfolding forget
forget-IsLive m p h = without-IsLive m p h

-- The dials after one of them is cancelled: the same dials, for the same peers.
get-cancel_dial :
    (k n : ℕ) (d : Dial) (dials : Dict ℕ Dial) (found : Option Dial)
    → get k dials ≡ found
    → get n dials ≡ some d
    → (c : Dial) × (get n (cancel_dial k found dials) ≡ some c) × (c.peer_id ≡ d.peer_id)
unfolding cancel_dial
get-cancel_dial k n d dials none same there = (d, there, refl)
get-cancel_dial k n d dials (some e) same there = elim (Bool-cases (k == n)) [
  | inl eq ↦ (cancelled_e, ground (arith, there_now, eq), own eq)
  | inr ne ↦ (d, ground (arith, there_now, ne, there), refl)
]
  where
    cancelled_e : Dial
    cancelled_e = record e { cancelled = true }

    there_now : get n (put k cancelled_e dials) ≡ (if k == n then some cancelled_e else get n dials)
    there_now = get-put n k cancelled_e dials

    own : k == n ≡ true → e.peer_id ≡ d.peer_id
    own eq = ground (arith, same, there, eq_iff k n)

disconnect_found-IsLive :
    (m : Manager) (p : Bytes) (found : Option Entry)
    → IsLive m
    → IsLive (disconnect_found m p found)
unfolding disconnect_found
disconnect_found-IsLive m p none h = h
disconnect_found-IsLive m p (some old) h = record {
  numbered = less.numbered;
  in_flight = λ q entry there busy. kept entry (less.in_flight q entry there busy);
}
  where
    less : IsLive (record m { peers = delete p m.peers })
    less = without-IsLive m p h

    kept :
        {q : Bytes} (entry : Entry)
        → IsInFlight m q entry
        → IsInFlight (disconnect_found m p (some old)) q entry
    kept entry (d, there, own) =
        let (c, now, same) =
          get-cancel_dial old.dial entry.dial d m.dials (get old.dial m.dials) refl there in
        (c, now, same ∙ own)

-- The end of a dial: the entry that waits for it is marked, and no other dial is dropped.
set_state-IsLive :
    (m : Manager) (now k : ℕ) (d : Dial) (next : State) (old : Option Entry)
    → next ≢ connecting
    → get k m.dials ≡ some d
    → get d.peer_id m.peers ≡ old
    → IsLive m
    → IsLive (set_state (record m { dials = delete k m.dials }) now d.peer_id next old)
unfolding set_state
set_state-IsLive m now k d next none settled mine same h = record {
  numbered = h.numbered;
  in_flight = λ q entry there busy.
      let (c, flying, own) = h.in_flight q entry there busy in
      (
        c,
        ground (
          arith,
          get-delete entry.dial k m.dials,
          eq_iff k entry.dial,
          flying,
          mine,
          own,
          there,
          same,
        ),
        own,
      );
}
set_state-IsLive m now k d next (some old) settled mine same h = record {
  numbered = λ q entry there.
      ground (arith, before q entry there, h.numbered q entry, h.numbered d.peer_id old);
  in_flight = λ q entry there busy. elim (before q entry there) [
    | inl (own, new) ↦ absurd (settled (sym (ap Entry.state new) ∙ busy))
    | inr (other, there) ↦ kept q entry other (h.in_flight q entry there busy)
  ];
}
  where
    marked : Entry
    marked = record old { state = next; updated_at = now }

    before :
        (q : Bytes) (entry : Entry)
        → get q (put d.peer_id marked m.peers) ≡ some entry
        → ((d.peer_id ≡ q) × (entry ≡ marked)) ⊎ ((d.peer_id ≢ q) × (get q m.peers ≡ some entry))
    before q entry there = ground (arith, get-put q d.peer_id marked m.peers, eq_iff d.peer_id q)

    kept :
        (q : Bytes) (entry : Entry)
        → d.peer_id ≢ q
        → IsInFlight m q entry
        → (c : Dial) × (get entry.dial (delete k m.dials) ≡ some c) × (c.peer_id ≡ q)
    kept q entry other (c, flying, own) = (
      c,
      ground (arith, get-delete entry.dial k m.dials, eq_iff k entry.dial, flying, mine, own),
      own,
    )

pub finish_dial-IsLive :
    (m : Manager) (now k : ℕ) (reached : Bool) → IsLive m → IsLive (finish_dial m now k reached)
unfolding finish_dial finish_found mark_state
finish_dial-IsLive m now k reached h = by_case (get k m.dials) refl
  where
    settled : (b : Bool) → (if b then connected else failed) ≢ connecting
    settled true = ground arith
    settled false = ground arith

    by_case :
        (found : Option Dial) → get k m.dials ≡ found → IsLive (finish_found m now k reached found)
    by_case none same = h
    by_case (some d) same =
        set_state-IsLive m now k d (if reached then connected else failed) (get d.peer_id m.peers)
          (settled reached) same refl h

pub disconnect-IsLive : (m : Manager) (p : Bytes) → IsLive m → IsLive (disconnect m p).0
unfolding disconnect
disconnect-IsLive m p h =
    if_intro (λ (r : Manager × Option ConnectError). IsLive r.0) (is_empty (trim p)) _ _ (λ e. h)
      (λ e. disconnect_found-IsLive m (trim p) (get (trim p) m.peers) h)

pub connect-IsLive : (m : Manager) (now : ℕ) (p e : Bytes) → IsLive m → IsLive (connect m now p e).0
unfolding connect connect_trimmed start_dial
connect-IsLive m now p e h =
    if_intro P (is_empty (trim p)) _ _ (λ e. h)
      (λ t. if_intro P (is_empty (trim e)) _ _ (λ e. h) (λ t. trimmed (get (trim p) m.peers)))
  where
    P : Manager × Option ConnectError → Type 0
    P r = IsLive r.0

    trimmed : (found : Option Entry) → IsLive (connect_trimmed m now (trim p) (trim e) found)
    trimmed none = start_dial-IsLive m now (trim p) (trim e) h
    trimmed (some entry) =
        if_intro IsLive (is_busy entry.state) _ _ (λ t. h)
          (λ t. start_dial-IsLive m now (trim p) (trim e) h)
