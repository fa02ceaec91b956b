-- ===== src/Tests/Ui.antt =====
-- The properties of the terminal interface while the chat has the focus, and of its listener.
use mathlib.Core.Option.{some-injective}
use skall.Base.{ℕ, suc, ◌≡◌, ◌≤◌, refl, Option, List, none, some, [], ◌∷◌, arith, ℕ-eq}
use skall.Bytes.{Bytes, lit}
use skall.Dict.{get, put}
use skall.Chat.Subscribers.{
  Channel, Subscribers, max_subs, no_subscribers, subscribe, publish, with_channels, for_each, send,
  send_found,
}
use skall.Chat.Node.{Event, peer_connected}
use skall.Ui.App.{App, Answers, new_app, focus_chat, set_chat_focused, set_focus, key_msg}
use skall.Ui.Sidebar.{set_focused}
use skall.Ui.Update.{update}
use skall.Ui.Focus.{IsFocused, update-IsFocused}
use skall.Ui.Listener.{Heard, receive, listen_events, taken}
use skall.Ui.Hearing.{Listens, Listens-le}

abbrev edit : Bytes → Bytes → Bytes
edit key text = text

abbrev svc : Answers
svc = record {
  peers = none;
  conversations = none;
  groups = none;
  messages = λ id. [];
  peer_count = 0;
}

new_app-IsFocused : IsFocused new_app
new_app-IsFocused = record { sidebar_focused = refl; chat_focused = refl; input_follows = refl }

update-IsFocused_example : IsFocused (update edit svc (key_msg (lit "right")) new_app).0
update-IsFocused_example =
    update-IsFocused edit svc (key_msg (lit "right")) new_app new_app-IsFocused

abbrev chatting : App
chatting = set_focus focus_chat new_app

chatting-IsFocused : IsFocused chatting
unfolding set_focus set_focused set_chat_focused
chatting-IsFocused = record { sidebar_focused = refl; chat_focused = refl; input_follows = refl }

-- The application while events come: the channel on which it waits, and the subscribers.
abbrev Waiting : Type 0
Waiting = ℕ × Subscribers Event

abbrev begun : Waiting
begun = ((listen_events {E = Event} no_subscribers).1, (listen_events {E = Event} no_subscribers).0)

-- An event is published, taken from the channel, and waited for again; nothing happens where that is not
-- possible.
heard_from : ℕ → Subscribers Event → Option (Channel Event) → Option Waiting
heard_from ch t none = none
heard_from ch t (some c) = elim c.queue [
  | [] ↦ none
  | ev ∷ queue ↦
      some ((listen_events (taken ch c queue t)).1, (listen_events (taken ch c queue t)).0)
]

told : ℕ → Option (Subscribers Event) → Option Waiting
unfolding heard_from
told ch none = none
told ch (some t) = heard_from ch t (get ch t.channels)

turn : Waiting → Option Waiting
unfolding told
turn (ch, s) = told ch (publish peer_connected s)

turns : ℕ → Waiting → Option Waiting
turns ℕ.zero w = some w
turns (suc k) w = elim (turn w) [ none ↦ none | some w' ↦ turns k w' ]

abbrev up : ℕ → ℕ → ℕ
up ℕ.zero n = n
up (suc k) n = up k (suc n)

Listens-same : {n : ℕ} {v w : Waiting} → v ≡ w → Listens n (some v.0) v.1 → Listens n (some w.0) w.1
Listens-same same l = rw (← same) l

heard_from-Listens :
    (n ch : ℕ) (t : Subscribers Event) (o : Option (Channel Event)) (w : Waiting)
    → Listens n (some ch) t
    → get ch t.channels ≡ o
    → heard_from ch t o ≡ some w
    → Listens (suc n) (some w.0) w.1
unfolding heard_from
heard_from-Listens n ch t none w l there h = absurd (ground arith)
heard_from-Listens n ch t (some c) w l there h = by_queue c.queue refl h
  where
    by_queue :
        (q : List Event)
        → c.queue ≡ q
        → (elim q [
          | [] ↦ none
          | ev ∷ queue ↦
              some ((listen_events (taken ch c queue t)).1, (listen_events (taken ch c queue t)).0)
        ])
          ≡ some w
        → Listens (suc n) (some w.0) w.1
    by_queue [] e h = absurd (ground arith)
    by_queue (ev ∷ queue) e h =
        let next : Waiting =
          ((listen_events (taken ch c queue t)).1, (listen_events (taken ch c queue t)).0) in
        let same : next ≡ w = some-injective next w h in
        Listens-same same (Listens.hears c ev queue l there e)

told-Listens :
    (n ch : ℕ) (s : Subscribers Event) (o : Option (Subscribers Event)) (w : Waiting)
    → Listens n (some ch) s
    → publish peer_connected s ≡ o
    → told ch o ≡ some w
    → Listens (suc n) (some w.0) w.1
unfolding told
told-Listens n ch s none w l sent h = absurd (ground arith)
told-Listens n ch s (some t) w l sent h =
    heard_from-Listens n ch t (get ch t.channels) w (Listens.publishes peer_connected l sent) refl h

turns-Listens :
    (k n : ℕ) (w : Waiting) {w' : Waiting}
    → Listens n (some w.0) w.1
    → turns k w ≡ some w'
    → Listens (up k n) (some w'.0) w'.1
unfolding turns turn
turns-Listens ℕ.zero n w {w'} l h = let same : w ≡ w' = some-injective w w' h in Listens-same same l
turns-Listens (suc k) n (ch, s) {w'} l h =
    by_turn (turn (ch, s)) refl h (λ v. turns-Listens k (suc n) v)
  where
    by_turn :
        (o : Option Waiting)
        → turn (ch, s) ≡ o
        → (elim o [ none ↦ none | some v ↦ turns k v ]) ≡ some w'
        → ((v : Waiting)
            → Listens (suc n) (some v.0) v.1
            → turns k v ≡ some w'
            → Listens (up k (suc n)) (some w'.0) w'.1)
        → Listens (up k (suc n)) (some w'.0) w'.1
    by_turn none e h later = absurd (ground arith)
    by_turn (some v) e h later =
        later v (told-Listens n ch s (publish peer_connected s) v l refl e) h

-- After sixteen events.
abbrev deaf : Waiting
unfolding turns turn told heard_from listen_events subscribe publish with_channels for_each send
    send_found taken get put
deaf = elim (turns 16 begun) [ none ↦ begun | some w ↦ w ]

deaf-Listens : Listens 16 (some deaf.0) deaf.1
unfolding turns turn told heard_from listen_events subscribe publish with_channels for_each send
    send_found taken get put
deaf-Listens = turns-Listens 16 0 begun (Listens.begins no_subscribers (omega arith)) refl

Listens-le_example :
    (16 ≤ max_subs)
    × ((ch : ℕ)
        → 16 ≡ max_subs
        → some deaf.0 ≡ some ch
        → receive (get ch deaf.1.channels) ≡ Heard.silent)
Listens-le_example = Listens-le deaf-Listens
