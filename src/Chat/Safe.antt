-- ===== src/Chat/Safe.antt =====
-- The invariant of the subscribers (internal/chat/p2p_service.go), and what lists do to it.
use skall.Base.{
  IsDistinct, if_intro, ℕ, ◌≡◌, ◌≤◌, ◌<◌, refl, true, false, List, [], ◌∷◌, ◌++◌, arith, length,
  contains, ◌==◌, ℕ-eq, eq_iff,
}
use skall.Dict.{Dict, get, has, put, get-put}
use skall.Chat.Subscribers.{Channel, Subscribers, max_subs, remove_first}
use skall.Chat.Open.{is_open, Closes, AreOpen, AreOpen-Closes}

module _ {E : Type 0} where
  pub record IsSafe (s : Subscribers E) : Type 0 where
    pub live : AreOpen s.subs s.channels
    pub distinct : IsDistinct s.subs
    pub bounded : length s.subs ≤ max_subs
    pub fresh : (j : ℕ) → has j s.channels ≡ true → j < s.next

  pub AreOpen-put :
      (subs : List ℕ) (channels : Dict ℕ (Channel E)) (k : ℕ) (c : Channel E)
      → has k channels ≡ false
      → AreOpen subs channels
      → AreOpen subs (put k c channels)
  AreOpen-put [] channels k c n o = tt
  AreOpen-put (ch ∷ subs) channels k c n o = (
    ground (arith, get-put ch k c channels, eq_iff k ch, o.0, n),
    AreOpen-put subs channels k c n o.1,
  )

  pub AreOpen-append :
      (subs : List ℕ) (channels : Dict ℕ (Channel E)) (k : ℕ)
      → AreOpen subs channels
      → is_open (get k channels) ≡ true
      → AreOpen (subs ++ k ∷ []) channels
  AreOpen-append [] channels k o h = (h, tt)
  AreOpen-append (ch ∷ subs) channels k o h = (o.0, AreOpen-append subs channels k o.1 h)

  pub AreOpen-new :
      (subs : List ℕ) (channels : Dict ℕ (Channel E)) (k : ℕ)
      → has k channels ≡ false
      → AreOpen subs channels
      → contains k subs ≡ false
  AreOpen-new [] channels k n o = refl
  AreOpen-new (ch ∷ subs) channels k n o =
      ground (arith, AreOpen-new subs channels k n o.1, eq_iff ch k, o.0, n)

  pub AreOpen-at :
      (subs : List ℕ) (channels : Dict ℕ (Channel E)) (k : ℕ)
      → AreOpen subs channels
      → contains k subs ≡ true
      → is_open (get k channels) ≡ true
  AreOpen-at [] channels k o h = absurd (ground arith)
  AreOpen-at (ch ∷ subs) channels k o h =
      ground (arith, AreOpen-at subs channels k o.1, eq_iff ch k, o.0, h)

  pub AreOpen-remove_first :
      (ch : ℕ) (subs : List ℕ) (channels after : Dict ℕ (Channel E))
      → Closes ch channels after
      → IsDistinct subs
      → AreOpen subs channels
      → AreOpen (remove_first ch subs) after
  unfolding remove_first
  AreOpen-remove_first ch [] channels after k d o = tt
  AreOpen-remove_first ch (x ∷ subs) channels after k d o =
      if_intro (λ (l : List ℕ). AreOpen l after) (x == ch) _ _
        (λ e. AreOpen-Closes ch subs channels after k (ground (arith, d.0, eq_iff x ch, e)) o.1)
        (λ e. (
          ground (arith, (k x).0, o.0, eq_iff ch x, eq_iff x ch, e),
          AreOpen-remove_first ch subs channels after k d.1 o.1,
        ))

contains-remove_first :
    (x ch : ℕ) (subs : List ℕ) → contains x subs ≡ false → contains x (remove_first ch subs) ≡ false
unfolding remove_first
contains-remove_first x ch [] n = refl
contains-remove_first x ch (y ∷ subs) n = ground (arith, contains-remove_first x ch subs, n)

pub IsDistinct-remove_first :
    (ch : ℕ) (subs : List ℕ) → IsDistinct subs → IsDistinct (remove_first ch subs)
unfolding remove_first
IsDistinct-remove_first ch [] d = tt
IsDistinct-remove_first ch (x ∷ subs) d =
    if_intro IsDistinct (x == ch) _ _ (λ e. d.1)
      (λ e. (contains-remove_first x ch subs d.0, IsDistinct-remove_first ch subs d.1))

pub length-remove_first : (ch : ℕ) (subs : List ℕ) → length (remove_first ch subs) ≤ length subs
unfolding remove_first
length-remove_first ch [] = omega arith
length-remove_first ch (x ∷ subs) = ground (arith, length-remove_first ch subs)
