-- ===== src/Chat/Joined.antt =====
-- JoinGroup and LeaveGroup of internal/chat/p2p_service.go, in the manager and in the store.
use skall.Base.{
  ℕ, ◌≡◌, ◌≢◌, refl, ap, ◌∙◌, Bool-cases, inl, inr, Bool, true, false, not, ◌||◌, ◌&&◌, Option,
  none, some, arith, eq_iff, ◌==◌, Result, ok, err, if◌then◌else◌,
}
use skall.Bytes.{Bytes, Bytes-eq, is_empty, trim_space}
use skall.Dict.{get, has, get-put}
use skall.Groups.State.{Manager, Group, GroupError}
use skall.Groups.Methods.{
  find_group, add_found, add_trimmed, add_member, remove_found, remove_trimmed, remove_member,
  with_member, without_member,
}
use skall.Groups.Keeps.{find_group_ok}
use skall.Groups.Membership.{member_of, has-with_member, has-without_member}
use skall.Storage.Rows.{Times, Store}
use skall.Storage.Errors.{StoreError}
use skall.Storage.Membership.{set_group_membership}
use skall.Storage.Active.{is_active, set_group_membership_lem, set_group_membership_no_group}
use skall.Chat.Service.{
  Service, join_error, leave_error, stored, then_store, join_group, leave_group,
}

find_group_err :
    (m : Manager) (id peer : Bytes) (e : GroupError)
    → find_group m id peer ≡ err e
    → (join_error (some e) ≢ none) × (leave_error (some e) ≢ none)
unfolding find_group join_error leave_error
find_group_err m id peer e h = (ground arith, ground arith)

module _ (m : Manager) (now : ℕ) (id peer k p : Bytes) where
  add_found_joined :
      (r : Result GroupError Group)
      → find_group m id peer ≡ r
      → join_error (add_found m now id peer r).1 ≡ none
      → (is_empty id ≡ false)
        × (is_empty peer ≡ false)
        × (member_of (get k (add_found m now id peer r).0.groups) p
            ≡ (member_of (get k m.groups) p || (id == k && peer == p)))
  unfolding add_found
  add_found_joined (err e) found h = absurd ((find_group_err m id peer e found).0 h)
  add_found_joined (ok g) found h =
      let (there, given, named) = find_group_ok m id peer g found in
      (
        given,
        named,
        ground (
          arith,
          there,
          get-put k id (with_member now peer g) m.groups,
          has-with_member now peer p g,
          eq_iff id k,
          eq_iff peer p,
        ),
      )

  remove_found_left :
      (r : Result GroupError Group)
      → find_group m id peer ≡ r
      → leave_error (remove_found m now id peer r).1 ≡ none
      → (is_empty id ≡ false)
        × (is_empty peer ≡ false)
        × (member_of (get k (remove_found m now id peer r).0.groups) p
            ≡ (member_of (get k m.groups) p && not (id == k && peer == p)))
  unfolding remove_found
  remove_found_left (err e) found h = absurd ((find_group_err m id peer e found).1 h)
  remove_found_left (ok g) found h =
      let (there, given, named) = find_group_ok m id peer g found in
      (
        given,
        named,
        ground (
          arith,
          there,
          get-put k id (without_member now peer g) m.groups,
          has-without_member now peer p g,
          eq_iff id k,
          eq_iff peer p,
        ),
      )

-- A second half that returned nil: the manager's error was passed over and the store wrote.
then_store_ok :
    (m : Manager) (s : Store) (e : Option GroupError) (w : Store × Option StoreError)
    → (then_store m s e w).1 ≡ none
    → (e ≡ none) × (w.1 ≡ none) × ((then_store m s e w).0 ≡ record { groups = m; store = w.0 })
unfolding then_store stored
then_store_ok m s (some e) w h = absurd (ground arith)
then_store_ok m s none (s', none) h = (refl, refl, refl)
then_store_ok m s none (s', some e) h = absurd (ground arith)

module _ (times : Times) where
  -- A SetGroupMembership that returns nil sets the flag of one membership, and of no other.
  set_group_membership_ok :
      (now : ℕ) (s : Store) (group peer : Bytes) (joined : ℕ) (active : Bool) (seen : ℕ)
      (k p : Bytes)
      → is_empty (trim_space group) ≡ false
      → is_empty (trim_space peer) ≡ false
      → (set_group_membership times none none now s group peer joined active seen).1 ≡ none
      → is_active (set_group_membership times none none now s group peer joined active seen).0 k p
        ≡ (if trim_space group == k && trim_space peer == p then active else is_active s k p)
  set_group_membership_ok now s group peer joined active seen k p eg ep h =
      elim (Bool-cases (has (trim_space group) s.groups)) [
        | inl there ↦
            (set_group_membership_lem times now s group peer joined active seen eg ep there).1 k p
        | inr missing ↦ absurd (
            ground (
              arith,
              set_group_membership_no_group times now s group peer joined active seen eg ep missing,
            ))
      ]

  -- When JoinGroup returns nil, the peer is a member in memory and an active member in the store, and
  -- every other membership is in both what it was; ids compare trimmed.
  pub join_group_lem :
      (now : ℕ) (s : Service) (group peer k p : Bytes)
      → (join_group times none none now s group peer).1 ≡ none
      → let s' = (join_group times none none now s group peer).0 in
        let same = trim_space group == k && trim_space peer == p in
        (member_of (get k s'.groups.groups) p ≡ (member_of (get k s.groups.groups) p || same))
        × (is_active s'.store k p ≡ (is_active s.store k p || same))
  unfolding join_group add_member add_trimmed
  join_group_lem now s group peer k p h =
      let (g, q) : Bytes × Bytes = (trim_space group, trim_space peer) in
      let (m, e) = add_member s.groups now group peer in
      let w = set_group_membership times none none now s.store group peer now true now in
      let (passed, wrote, after) = then_store_ok m s.store (join_error e) w h in
      let (given, named, joined) =
        add_found_joined s.groups now g q k p (find_group s.groups g q) refl passed in
      let flag =
        set_group_membership_ok now s.store group peer now true now k p given named wrote in
      (
        ap (λ (t : Service). member_of (get k t.groups.groups) p) after ∙ joined,
        ap (λ (t : Service). is_active t.store k p) after ∙ ground (arith, flag),
      )

  -- When LeaveGroup returns nil, the peer is no member in memory and no active member in the store, and
  -- every other membership is in both what it was; ids compare trimmed.
  leave_group_lem :
      (now : ℕ) (s : Service) (group peer k p : Bytes)
      → (leave_group times none none now s group peer).1 ≡ none
      → let s' = (leave_group times none none now s group peer).0 in
        let same = trim_space group == k && trim_space peer == p in
        (member_of (get k s'.groups.groups) p ≡ (member_of (get k s.groups.groups) p && not same))
        × (is_active s'.store k p ≡ (is_active s.store k p && not same))
  unfolding leave_group remove_member remove_trimmed
  leave_group_lem now s group peer k p h =
      let (g, q) : Bytes × Bytes = (trim_space group, trim_space peer) in
      let (m, e) = remove_member s.groups now group peer in
      let w = set_group_membership times none none now s.store group peer now false now in
      let (passed, wrote, after) = then_store_ok m s.store (leave_error e) w h in
      let (given, named, left) =
        remove_found_left s.groups now g q k p (find_group s.groups g q) refl passed in
      let flag =
        set_group_membership_ok now s.store group peer now false now k p given named wrote in
      (
        ap (λ (t : Service). member_of (get k t.groups.groups) p) after ∙ left,
        ap (λ (t : Service). is_active t.store k p) after ∙ ground (arith, flag),
      )
