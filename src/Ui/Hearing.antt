-- ===== src/Ui/Hearing.antt =====
-- How many events the terminal interface hears (internal/ui/app.go).
use mathlib.Core.Option.{some-injective}
use skall.Base.{
  ℕ, suc, ◌≡◌, ◌≤◌, refl, sym, ap, ◌⊎◌, inl, inr, true, Option, none, some, List, [], ◌∷◌, ◌++◌,
  arith, length, length-append, leb, if◌then◌else◌, ℕ-eq, eq_iff, Bool-cases,
}
use skall.Dict.{Dict, get, get-put, get-put_self}
use skall.Chat.Subscribers.{
  Channel, Subscribers, max_subs, subscribe, publish, with_channels, for_each, send, send_found,
}
use skall.Ui.Listener.{receive, silent, listen_events, taken}

module _ {E : Type 0} where
  -- The loop of the application: the count of the events that it has heard, the channel on which the command
  -- of listenEvents waits, and the subscribers. Init calls listenEvents, and Update calls it again for each
  -- event. A command that returns nil is not followed by a call of Update. Other parts publish at any time.
  pub data Listens : ℕ → Option ℕ → Subscribers E → Type 0 where
    begins :
        (s : Subscribers E)
        → length s.subs ≤ max_subs
        → Listens 0 (some (listen_events s).1) (listen_events s).0
    publishes :
        {heard : ℕ} {pending : Option ℕ} {s t : Subscribers E} (ev : E)
        → Listens heard pending s
        → publish ev s ≡ some t
        → Listens heard pending t
    hears :
        {heard ch : ℕ} {s : Subscribers E} (c : Channel E) (ev : E) (queue : List E)
        → Listens heard (some ch) s
        → get ch s.channels ≡ some c
        → c.queue ≡ ev ∷ queue
        → Listens
            (suc heard)
            (some (listen_events (taken ch c queue s)).1)
            (listen_events (taken ch c queue s)).0
    returns_nil :
        {heard ch : ℕ} {s : Subscribers E}
        → Listens heard (some ch) s
        → receive (get ch s.channels) ≡ silent
        → Listens heard none s

  length-publish :
      (ev : E) (s : Subscribers E) {t : Subscribers E}
      → publish ev s ≡ some t
      → length t.subs ≡ length s.subs
  unfolding publish with_channels
  length-publish ev s h = by_sent (for_each (send ev) s.subs s.channels) h
    where
      by_sent :
          (sent : Option (Dict ℕ (Channel E))) {t : Subscribers E}
          → with_channels s s.subs sent ≡ some t
          → length t.subs ≡ length s.subs
      by_sent none h = absurd (ground arith)
      by_sent (some channels) {t} h = sym (
          ap (λ (x : Subscribers E). length x.subs)
            (some-injective (record s { channels = channels }) t h))

  length-listen :
      (s : Subscribers E)
      → length s.subs ≤ max_subs
      → length (listen_events s).0.subs
        ≡ (if leb max_subs (length s.subs) then length s.subs else suc (length s.subs))
  unfolding listen_events subscribe
  length-listen s h = ground (arith, length-append s.subs (s.next ∷ []))

  -- The channel is closed and empty.
  abbrev IsDead : ℕ → Subscribers E → Type 0
  IsDead ch s = (c : Channel E) × (get ch s.channels ≡ some c) × (c.queue ≡ []) × (c.closed ≡ true)

  -- A send that does not panic leaves a closed channel alone.
  send_found_dead :
      (ev : E) (ch sub : ℕ) (channels after : Dict ℕ (Channel E)) (o : Option (Channel E))
      (c : Channel E)
      → get sub channels ≡ o
      → send_found ev sub channels o ≡ some after
      → get ch channels ≡ some c
      → c.closed ≡ true
      → get ch after ≡ some c
  unfolding send_found
  send_found_dead ev ch sub channels after none c e sent there dead = absurd (ground arith)
  send_found_dead ev ch sub channels after (some d) c e sent there dead =
      ground
        (arith, get-put ch sub (record d { queue = d.queue ++ ev ∷ [] }) channels, eq_iff sub ch)

  for_each_dead :
      (ev : E) (ch : ℕ) (subs : List ℕ) (channels after : Dict ℕ (Channel E)) (c : Channel E)
      → for_each (send ev) subs channels ≡ some after
      → get ch channels ≡ some c
      → c.closed ≡ true
      → get ch after ≡ some c
  unfolding for_each
  for_each_dead ev ch [] channels after c sent there dead = ground arith
  for_each_dead ev ch (sub ∷ subs) channels after c sent there dead =
      by_send (send ev sub channels) refl sent (λ next. for_each_dead ev ch subs next after c)
    where
      by_send :
          (o : Option (Dict ℕ (Channel E)))
          → send ev sub channels ≡ o
          → (elim o [ none ↦ none | some next ↦ for_each (send ev) subs next ]) ≡ some after
          → ((next : Dict ℕ (Channel E))
              → for_each (send ev) subs next ≡ some after
              → get ch next ≡ some c
              → c.closed ≡ true
              → get ch after ≡ some c)
          → get ch after ≡ some c
      by_send none e h later = absurd (ground arith)
      by_send (some next) e h later =
          later next h
            (send_found_dead ev ch sub channels next (get sub channels) c refl (unfold send in e)
              there dead)
            dead

  publish_dead :
      (ev : E) (ch : ℕ) (s t : Subscribers E) (c : Channel E)
      → publish ev s ≡ some t
      → get ch s.channels ≡ some c
      → c.closed ≡ true
      → get ch t.channels ≡ some c
  unfolding publish with_channels
  publish_dead ev ch s t c sent there dead =
      by_sent (for_each (send ev) s.subs s.channels) refl sent
    where
      by_sent :
          (o : Option (Dict ℕ (Channel E)))
          → for_each (send ev) s.subs s.channels ≡ o
          → with_channels s s.subs o ≡ some t
          → get ch t.channels ≡ some c
      by_sent none e h = absurd (ground arith)
      by_sent (some after) e h =
          let same : record s { channels = after } ≡ t =
            some-injective (record s { channels = after }) t h in
          rw (← same) (for_each_dead ev ch s.subs s.channels after c e there dead)

  -- Each event that was heard used up a subscription, and so does the open channel on which the
  -- application waits.
  record IsCounted (heard : ℕ) (pending : Option ℕ) (s : Subscribers E) : Type 0 where
    bounded : length s.subs ≤ max_subs
    counted : heard ≤ length s.subs
    waiting : (ch : ℕ) → pending ≡ some ch → (suc heard ≤ length s.subs) ⊎ IsDead ch s

  listen-IsCounted :
      (heard : ℕ) (s : Subscribers E)
      → length s.subs ≤ max_subs
      → heard ≤ length s.subs
      → IsCounted heard (some (listen_events s).1) (listen_events s).0
  listen-IsCounted heard s fits counted = record {
    bounded = ground (arith, length-listen s fits);
    counted = ground (arith, length-listen s fits);
    waiting = λ ch same. elim (Bool-cases (leb max_subs (length s.subs))) [
      | inl full ↦ inr (
          let dead : Channel E = record { queue = []; closed = true } in
          (
            dead,
            unfold listen_events subscribe in
                ground (arith, full, get-put_self s.next dead s.channels),
            refl,
            refl,
          ))
      | inr room ↦ inl (ground (arith, room, length-listen s fits))
    ];
  }

  publish-IsCounted :
      (heard : ℕ) (pending : Option ℕ) (s t : Subscribers E) (ev : E)
      → publish ev s ≡ some t
      → IsCounted heard pending s
      → IsCounted heard pending t
  publish-IsCounted heard pending s t ev sent h =
      let same = length-publish ev s sent in
      record {
        bounded = ground (arith, same, h.bounded);
        counted = ground (arith, same, h.counted);
        waiting = λ ch e. elim (h.waiting ch e) [
          | inl room ↦ inl (ground (arith, same, room))
          | inr (c, there, empty, dead) ↦
              inr (c, publish_dead ev ch s t c sent there dead, empty, dead)
        ];
      }

  Listens-IsCounted :
      {heard : ℕ} {pending : Option ℕ} {s : Subscribers E}
      → Listens heard pending s
      → IsCounted heard pending s
  unfolding taken
  Listens-IsCounted (begins s fits) = listen-IsCounted 0 s fits (omega arith)
  Listens-IsCounted (publishes {heard} {pending} {s} {t} ev l sent) =
      publish-IsCounted heard pending s t ev sent (Listens-IsCounted l)
  Listens-IsCounted (hears {heard} {ch} {s} c ev queue l there full) =
      let h = Listens-IsCounted l in
      listen-IsCounted (suc heard) (taken ch c queue s) h.bounded (elim (h.waiting ch refl) [
        | inl room ↦ room
        | inr (d, at, empty, dead) ↦ absurd (ground (arith, there, at, empty, full))
      ])
  Listens-IsCounted (returns_nil {heard} {ch} {s} l closed) =
      let h = Listens-IsCounted l in
      record {
        bounded = h.bounded;
        counted = h.counted;
        waiting = λ k e. absurd (ground (arith, e));
      }

  -- Whatever is published and whoever else has subscribed before, the application hears at most sixteen events of the
  -- chat service in its life; when it has heard sixteen, the channel on which it waits is closed, and its
  -- command returns no message.
  pub Listens-le :
      {heard : ℕ} {pending : Option ℕ} {s : Subscribers E}
      → Listens heard pending s
      → (heard ≤ max_subs)
        × ((ch : ℕ) → heard ≡ max_subs → pending ≡ some ch → receive (get ch s.channels) ≡ silent)
  unfolding receive
  Listens-le {heard} l =
      let h = Listens-IsCounted l in
      (
        ground (arith, h.bounded, h.counted),
        λ ch all e. elim (h.waiting ch e) [
          | inl room ↦ absurd (omega (arith, room, h.bounded, all))
          | inr (c, there, empty, dead) ↦ rw there (rw empty (rw dead))
        ],
      )
