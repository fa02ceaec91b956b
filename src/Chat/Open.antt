-- ===== src/Chat/Open.antt =====
-- Open and closed channels in the loops of publish and Close (internal/chat/p2p_service.go).
use skall.Base.{
  IsDistinct, Bool-cases, inl, inr, ℕ, ◌≡◌, refl, Bool, true, false, not, ◌&&◌, ◌∙◌, Option, none,
  some, List, [], ◌∷◌, ◌++◌, arith, length, contains, ◌==◌, ℕ-eq, eq_iff, leb,
}
use skall.Dict.{Dict, get, has, put, get-put}
use skall.Chat.Subscribers.{
  Channel, subscriber_buf, close_channel, close_found, send, send_found, for_each,
}

module _ {E : Type 0} where
  abbrev pub is_open : Option (Channel E) → Bool
  is_open none = false
  is_open (some c) = not c.closed

  -- What an operation on one channel leaves of the others.
  abbrev pub Closes : ℕ → Dict ℕ (Channel E) → Dict ℕ (Channel E) → Type 0
  Closes ch channels after =
      (j : ℕ)
      → (is_open (get j after) ≡ (not (ch == j) && is_open (get j channels)))
        × (has j after ≡ has j channels)

  abbrev pub Keeps : Dict ℕ (Channel E) → Dict ℕ (Channel E) → Type 0
  Keeps channels after =
      (j : ℕ) → (is_open (get j after) ≡ is_open (get j channels)) × (has j after ≡ has j channels)

  pub close_found_ok :
      (ch : ℕ) (channels : Dict ℕ (Channel E)) (found : Option (Channel E))
      → get ch channels ≡ found
      → is_open found ≡ true
      → (after : Dict ℕ (Channel E)) × (close_found ch channels found ≡ some after)
        × Closes ch channels after
  unfolding close_found
  close_found_ok ch channels none there live = absurd (ground arith)
  close_found_ok ch channels (some c) there live =
      let shut : Channel E = record c { closed = true } in
      (
        put ch shut channels,
        ground arith,
        λ j. (
          ground (arith, get-put j ch shut channels),
          ground (arith, get-put j ch shut channels, eq_iff ch j, there),
        ),
      )

  send_found_ok :
      (ev : E) (ch : ℕ) (channels : Dict ℕ (Channel E)) (found : Option (Channel E))
      → get ch channels ≡ found
      → is_open found ≡ true
      → (after : Dict ℕ (Channel E)) × (send_found ev ch channels found ≡ some after)
        × Keeps channels after
  unfolding send_found
  send_found_ok ev ch channels none there live = absurd (ground arith)
  send_found_ok ev ch channels (some c) there live =
      let sent : Channel E = record c { queue = c.queue ++ ev ∷ [] } in
      elim (Bool-cases (leb subscriber_buf (length c.queue))) [
        | inl full ↦ (channels, ground arith, λ j. (refl, refl))
        | inr room ↦ (
          put ch sent channels,
          ground arith,
          λ j. (
            ground (arith, get-put j ch sent channels, eq_iff ch j, there),
            ground (arith, get-put j ch sent channels, eq_iff ch j, there),
          ),
        )
      ]

  -- Each subscriber's channel is open.
  abbrev pub AreOpen : List ℕ → Dict ℕ (Channel E) → Type 0
  AreOpen [] channels = Unit
  AreOpen (ch ∷ subs) channels = (is_open (get ch channels) ≡ true) × AreOpen subs channels

  pub AreOpen-Keeps :
      (subs : List ℕ) (channels after : Dict ℕ (Channel E))
      → Keeps channels after
      → AreOpen subs channels
      → AreOpen subs after
  AreOpen-Keeps [] channels after k o = tt
  AreOpen-Keeps (ch ∷ subs) channels after k o =
      ((k ch).0 ∙ o.0, AreOpen-Keeps subs channels after k o.1)

  pub AreOpen-Closes :
      (ch : ℕ) (subs : List ℕ) (channels after : Dict ℕ (Channel E))
      → Closes ch channels after
      → contains ch subs ≡ false
      → AreOpen subs channels
      → AreOpen subs after
  AreOpen-Closes ch [] channels after k n o = tt
  AreOpen-Closes ch (x ∷ subs) channels after k n o = (
    ground (arith, (k x).0, o.0, eq_iff ch x, eq_iff x ch, n),
    AreOpen-Closes ch subs channels after k (ground (arith, n)) o.1,
  )

  pub send_each_ok :
      (ev : E) (subs : List ℕ) (channels : Dict ℕ (Channel E))
      → AreOpen subs channels
      → (after : Dict ℕ (Channel E)) × (for_each (send ev) subs channels ≡ some after)
        × Keeps channels after
  unfolding for_each send
  send_each_ok ev [] channels o = (channels, refl, λ j. (refl, refl))
  send_each_ok ev (ch ∷ subs) channels o =
      let (first, sent, kept) = send_found_ok ev ch channels (get ch channels) refl o.0 in
      let (after, all, still) =
        send_each_ok ev subs first (AreOpen-Keeps subs channels first kept o.1) in
      (after, ground (arith, sent, all), λ j. ((still j).0 ∙ (kept j).0, (still j).1 ∙ (kept j).1))

  pub close_each_ok :
      (subs : List ℕ) (channels : Dict ℕ (Channel E))
      → IsDistinct subs
      → AreOpen subs channels
      → (after : Dict ℕ (Channel E)) × (for_each close_channel subs channels ≡ some after)
        × ((j : ℕ) → has j after ≡ has j channels)
  unfolding for_each close_channel
  close_each_ok [] channels d o = (channels, refl, λ j. refl)
  close_each_ok (ch ∷ subs) channels d o =
      let (first, shut, kept) = close_found_ok ch channels (get ch channels) refl o.0 in
      let (after, all, still) =
        close_each_ok subs first d.1 (AreOpen-Closes ch subs channels first kept d.0 o.1) in
      (after, ground (arith, shut, all), λ j. still j ∙ (kept j).1)
