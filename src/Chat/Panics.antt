-- ===== src/Chat/Panics.antt =====
-- Sequences of the operations on the subscribers (internal/chat/p2p_service.go).
use skall.Base.{
  IsDistinct-append, ap, if_intro, ℕ, suc, ◌≡◌, ◌≢◌, ◌<◌, refl, true, false, Option, none, some, [],
  ◌∷◌, ◌++◌, arith, length, length-append, contains, ℕ-eq, eq_iff, eq_refl, leb,
}
use skall.Dict.{get, has, put, get-put, has-put, get-empty}
use skall.Chat.Subscribers.{
  Channel, Subscribers, max_subs, no_subscribers, remove_first, close_channel, subscribe,
  subscribe_e, unsubscribe, publish, close, with_channels,
}
use skall.Chat.Open.{AreOpen-Keeps, send_each_ok, close_each_ok, close_found_ok}
use skall.Chat.Safe.{
  IsSafe, AreOpen-put, AreOpen-append, AreOpen-new, AreOpen-at, AreOpen-remove_first,
  IsDistinct-remove_first, length-remove_first,
}

module _ {E : Type 0} where
  -- The service with one more channel, which nobody has subscribed to.
  with_channel-IsSafe :
      (s : Subscribers E) (c : Channel E)
      → IsSafe s
      → IsSafe (record s { channels = put s.next c s.channels; next = suc s.next })
  with_channel-IsSafe s c h = record {
    live = AreOpen-put s.subs s.channels s.next c (ground (arith, h.fresh s.next)) h.live;
    distinct = h.distinct;
    bounded = h.bounded;
    fresh = λ j there. ground (arith, has-put j s.next c s.channels, h.fresh j, eq_iff s.next j);
  }

  -- The service with one more subscriber.
  with_subscriber-IsSafe :
      (s : Subscribers E)
      → length s.subs < max_subs
      → IsSafe s
      → IsSafe (record {
        channels = put s.next (record { queue = []; closed = false }) s.channels;
        subs = s.subs ++ s.next ∷ [];
        next = suc s.next;
      })
  with_subscriber-IsSafe s room h =
      let c : Channel E = record { queue = []; closed = false } in
      let more = with_channel-IsSafe s c h in
      let new : has s.next s.channels ≡ false = ground (arith, h.fresh s.next) in
      record {
        live =
            AreOpen-append s.subs (put s.next c s.channels) s.next more.live
              (ground (arith, get-put s.next s.next c s.channels, eq_refl s.next));
        distinct =
            IsDistinct-append s.next s.subs h.distinct
              (AreOpen-new s.subs s.channels s.next new h.live);
        bounded = ground (arith, length-append s.subs (s.next ∷ []));
        fresh = more.fresh;
      }

  subscribe-IsSafe : (s : Subscribers E) → IsSafe s → IsSafe (subscribe s).0
  unfolding subscribe
  subscribe-IsSafe s h =
      if_intro (λ (r : Subscribers E × ℕ). IsSafe r.0) (leb max_subs (length s.subs)) _ _
        (λ e. with_channel-IsSafe s (record { queue = []; closed = true }) h)
        (λ e. with_subscriber-IsSafe s (ground (arith, e)) h)

  subscribe_e-IsSafe : (s : Subscribers E) → IsSafe s → IsSafe (subscribe_e s).0
  unfolding subscribe_e
  subscribe_e-IsSafe s h =
      if_intro (λ (r : Subscribers E × Option ℕ). IsSafe r.0) (leb max_subs (length s.subs)) _ _
        (λ e. h) (λ e. with_subscriber-IsSafe s (ground (arith, e)) h)

  pub publish-IsSafe :
      (ev : E) (s : Subscribers E)
      → IsSafe s
      → (t : Subscribers E) × (publish ev s ≡ some t) × IsSafe t
  unfolding publish with_channels
  publish-IsSafe ev s h =
      let (after, sent, kept) = send_each_ok ev s.subs s.channels h.live in
      (
        record s { channels = after },
        ap (with_channels s s.subs) sent,
        record {
          live = AreOpen-Keeps s.subs s.channels after kept h.live;
          distinct = h.distinct;
          bounded = h.bounded;
          fresh = λ j there. ground (arith, (kept j).1, h.fresh j);
        },
      )

  close-IsSafe :
      (s : Subscribers E) → IsSafe s → (t : Subscribers E) × (close s ≡ some t) × IsSafe t
  unfolding close with_channels
  close-IsSafe s h =
      let (after, shut, kept) = close_each_ok s.subs s.channels h.distinct h.live in
      (
        record s { channels = after; subs = [] },
        ap (with_channels s []) shut,
        record {
          live = tt;
          distinct = tt;
          bounded = omega arith;
          fresh = λ j there. ground (arith, kept j, h.fresh j);
        },
      )

  unsubscribe-IsSafe :
      (ch : ℕ) (s : Subscribers E)
      → IsSafe s
      → (t : Subscribers E) × (unsubscribe ch s ≡ some t) × IsSafe t
  unfolding unsubscribe with_channels close_channel
  unsubscribe-IsSafe ch s h =
      if_intro (λ (r : Option (Subscribers E)). (t : Subscribers E) × (r ≡ some t) × IsSafe t)
        (contains ch s.subs) _ _
        (λ e.
          let (after, shut, kept) =
            close_found_ok ch s.channels (get ch s.channels) refl
              (AreOpen-at s.subs s.channels ch h.live e) in
          (
            record s { channels = after; subs = remove_first ch s.subs },
            ap (with_channels s (remove_first ch s.subs)) shut,
            record {
              live = AreOpen-remove_first ch s.subs s.channels after kept h.distinct h.live;
              distinct = IsDistinct-remove_first ch s.subs h.distinct;
              bounded = ground (arith, h.bounded, length-remove_first ch s.subs);
              fresh = λ j there. ground (arith, (kept j).1, h.fresh j);
            },
          ))
        (λ e. (s, refl, h))

  -- One operation that does not panic.
  pub data Step (s : Subscribers E) : Subscribers E → Type 0 where
    subscribes : Step s (subscribe s).0
    subscribes_e : Step s (subscribe_e s).0
    unsubscribes : (ch : ℕ) {t : Subscribers E} → unsubscribe ch s ≡ some t → Step s t
    publishes : (ev : E) {t : Subscribers E} → publish ev s ≡ some t → Step s t
    closes : {t : Subscribers E} → close s ≡ some t → Step s t

  pub data Reach : Subscribers E → Type 0 where
    start : Reach no_subscribers
    next : {s t : Subscribers E} → Reach s → Step s t → Reach t

  ok-IsSafe :
      (r : Option (Subscribers E)) {t : Subscribers E}
      → ((u : Subscribers E) × (r ≡ some u) × IsSafe u)
      → r ≡ some t
      → IsSafe t
  ok-IsSafe r {t} (u, e, h) same = let eq : t ≡ u = ground (arith, e, same) in rw eq h

  step-IsSafe : {s t : Subscribers E} → Step s t → IsSafe s → IsSafe t
  step-IsSafe {s} subscribes h = subscribe-IsSafe s h
  step-IsSafe {s} subscribes_e h = subscribe_e-IsSafe s h
  step-IsSafe {s} (unsubscribes ch e) h = ok-IsSafe (unsubscribe ch s) (unsubscribe-IsSafe ch s h) e
  step-IsSafe {s} (publishes ev e) h = ok-IsSafe (publish ev s) (publish-IsSafe ev s h) e
  step-IsSafe {s} (closes e) h = ok-IsSafe (close s) (close-IsSafe s h) e

  -- After any sequence of Subscribe, SubscribeE, Unsubscribe, publish and Close, the subscribers are at
  -- most maxSubs, no one is listed twice, and the channel of each is open.
  pub Reach-IsSafe : {s : Subscribers E} → Reach s → IsSafe s
  Reach-IsSafe start = record {
    live = tt;
    distinct = tt;
    bounded = omega arith;
    fresh = λ j there. absurd (ground (arith, get-empty {K = ℕ} {V = Channel E} j));
  }
  Reach-IsSafe (next r step) = step-IsSafe step (Reach-IsSafe r)

  -- In every state that those operations can reach, publish of any event, Unsubscribe of any channel and
  -- Close do not panic.
  pub Reach-ne-panics :
      {s : Subscribers E} (ev : E) (ch : ℕ)
      → Reach s
      → (publish ev s ≢ none) × (unsubscribe ch s ≢ none) × (close s ≢ none)
  Reach-ne-panics {s} ev ch r =
      let h = Reach-IsSafe r in
      let (t, sent, _) = publish-IsSafe ev s h in
      let (u, left, _) = unsubscribe-IsSafe ch s h in
      let (v, shut, _) = close-IsSafe s h in
      (λ e. ground (arith, sent, e), λ e. ground (arith, left, e), λ e. ground (arith, shut, e))
