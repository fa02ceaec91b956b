-- ===== src/Storage/Active.antt =====
-- Which memberships are active, as a look-up, and what SetGroupMembership makes of it.
use skall.Base.{
  ℕ, ◌≡◌, refl, Bool, true, false, ◌&&◌, Option, none, some, arith, ◌==◌, if◌then◌else◌, nat_eq,
}
use skall.Bytes.{Bytes, Bytes-eq, is_empty, trim_space, trim_space_idem}
use skall.Dict.{Dict, get, has, put, get-put, get-put_self}
use skall.Storage.Rows.{Times, PeerRow, MembershipRow, Store, Pair-eq}
use skall.Storage.Errors.{classify_db_error, foreign_key_failed}
use skall.Storage.Peers.{upsert_peer, upsert_peer_row, peer_row}
use skall.Storage.Membership.{
  membership_row, membership_statement, then_membership, set_membership, set_group_membership,
}

-- Whether the row of a membership is there and its flag is set.
abbrev pub flag : Option MembershipRow → Bool
flag none = false
flag (some row) = nat_eq row.active 1

abbrev pub is_active : Store → Bytes → Bytes → Bool
is_active s g p = flag (get (g, p) s.memberships)

-- The display name of a peer, where it has a row.
abbrev pub display_name_of : Store → Bytes → Option Bytes
display_name_of s peer = elim (get peer s.peers) [ none ↦ none | some row ↦ some row.display_name ]

module _ (times : Times) where
  flag-membership_row :
      (old : Option MembershipRow) (joined : ℕ) (active : Bool) (seen now : ℕ)
      → flag (some (membership_row times old joined active seen now)) ≡ active
  unfolding membership_row
  flag-membership_row none joined active seen now = ground arith
  flag-membership_row (some old) joined active seen now = ground arith

  upsert_peer_plain :
      (now : ℕ) (s : Store) (peer : Bytes) (seen : ℕ)
      → trim_space peer ≡ peer
      → is_empty peer ≡ false
      → (upsert_peer times none now s peer peer seen) ≡ (
        record s {
          peers =
              put peer
                (peer_row times (get peer s.peers) peer (if nat_eq seen 0 then now else seen) now)
                s.peers;
        },
        none,
      )
  unfolding upsert_peer upsert_peer_row
  upsert_peer_plain now s peer seen t e = ground (arith, t, e)

  -- The peers table after the first statement.
  abbrev peers_after : ℕ → Store → Bytes → ℕ → Dict Bytes PeerRow
  peers_after now s peer seen =
      put peer (peer_row times (get peer s.peers) peer (if nat_eq seen 0 then now else seen) now)
        s.peers

  set_membership_plain :
      (now : ℕ) (s : Store) (group peer : Bytes) (joined : ℕ) (active : Bool) (seen : ℕ)
      → trim_space peer ≡ peer
      → is_empty peer ≡ false
      → has group s.groups ≡ true
      → set_membership times none none now s group peer joined active seen ≡ (
        record s {
          peers = peers_after now s peer seen;
          memberships =
              put
                (group, peer)
                (membership_row times (get (group, peer) s.memberships) joined active seen now)
                s.memberships;
        },
        none,
      )
  unfolding set_membership then_membership membership_statement
  set_membership_plain now s group peer joined active seen t e there =
      rw (upsert_peer_plain now s peer seen t e) (ground arith)

  set_membership_orphan :
      (now : ℕ) (s : Store) (group peer : Bytes) (joined : ℕ) (active : Bool) (seen : ℕ)
      → trim_space peer ≡ peer
      → is_empty peer ≡ false
      → has group s.groups ≡ false
      → set_membership times none none now s group peer joined active seen ≡ (
        record s { peers = peers_after now s peer seen },
        some (classify_db_error foreign_key_failed),
      )
  unfolding set_membership then_membership membership_statement
  set_membership_orphan now s group peer joined active seen t e there =
      rw (upsert_peer_plain now s peer seen t e) (ground arith)

  display_name-peer_row :
      (old : Option PeerRow) (name : Bytes) (seen now : ℕ)
      → (peer_row times old name seen now).display_name ≡ name
  unfolding peer_row
  display_name-peer_row none name seen now = refl
  display_name-peer_row (some old) name seen now = refl

  set_group_membership_step :
      (now : ℕ) (s : Store) (group peer : Bytes) (joined : ℕ) (active : Bool) (seen : ℕ)
      → is_empty (trim_space group) ≡ false
      → is_empty (trim_space peer) ≡ false
      → set_group_membership times none none now s group peer joined active seen ≡ (
          let joined' = if nat_eq joined 0 then now else joined in
          set_membership times none none now s
            (trim_space group)
            (trim_space peer)
            joined'
            active
            (if nat_eq seen 0 then joined' else seen))
  unfolding set_group_membership
  set_group_membership_step now s group peer joined active seen eg ep = rw eg (rw ep refl)

  -- On a group that is there, with a working engine, SetGroupMembership returns nil. It sets the flag
  -- of that one membership, leaves all other flags and the groups alone, and writes the peer's row
  -- with the peer's id for a display name, whatever name was there.
  pub set_group_membership_lem :
      (now : ℕ) (s : Store) (group peer : Bytes) (joined : ℕ) (active : Bool) (seen : ℕ)
      → is_empty (trim_space group) ≡ false
      → is_empty (trim_space peer) ≡ false
      → has (trim_space group) s.groups ≡ true
      → let r = set_group_membership times none none now s group peer joined active seen in
        (r.1 ≡ none)
        × ((g p : Bytes)
            → is_active r.0 g p
              ≡ (if trim_space group == g && trim_space peer == p then active else is_active s g p))
        × (r.0.groups ≡ s.groups)
        × (display_name_of r.0 (trim_space peer) ≡ some (trim_space peer))
  set_group_membership_lem now s group peer joined active seen eg ep there =
      let (g', p') : Bytes × Bytes = (trim_space group, trim_space peer) in
      let joined' : ℕ = if nat_eq joined 0 then now else joined in
      let seen' : ℕ = if nat_eq seen 0 then joined' else seen in
      let row : MembershipRow =
        membership_row times (get (g', p') s.memberships) joined' active seen' now in
      let old : Option PeerRow = get p' s.peers in
      let when : ℕ = if nat_eq seen' 0 then now else seen' in
      rw (set_group_membership_step now s group peer joined active seen eg ep) (
        rw (set_membership_plain now s g' p' joined' active seen' (trim_space_idem peer) ep there) (
          refl,
          λ g p. ground (
            arith,
            get-put {K = Bytes × Bytes} (g, p) (g', p') row s.memberships,
            flag-membership_row (get (g', p') s.memberships) joined' active seen' now,
          ),
          refl,
          ground (
            arith,
            get-put_self p' (peer_row times old p' when now) s.peers,
            display_name-peer_row old p' when now,
          ),
        ))

  -- On a group that is not there the foreign key refuses the membership: the error is reported and no
  -- flag changes, but the peer's row has been written.
  pub set_group_membership_no_group :
      (now : ℕ) (s : Store) (group peer : Bytes) (joined : ℕ) (active : Bool) (seen : ℕ)
      → is_empty (trim_space group) ≡ false
      → is_empty (trim_space peer) ≡ false
      → has (trim_space group) s.groups ≡ false
      → let r = set_group_membership times none none now s group peer joined active seen in
        (r.1 ≡ some (classify_db_error foreign_key_failed))
        × (r.0.memberships ≡ s.memberships)
        × (has (trim_space peer) r.0.peers ≡ true)
  set_group_membership_no_group now s group peer joined active seen eg ep there =
      let (g', p') : Bytes × Bytes = (trim_space group, trim_space peer) in
      let joined' : ℕ = if nat_eq joined 0 then now else joined in
      let seen' : ℕ = if nat_eq seen 0 then joined' else seen in
      let old : Option PeerRow = get p' s.peers in
      let when : ℕ = if nat_eq seen' 0 then now else seen' in
      rw (set_group_membership_step now s group peer joined active seen eg ep) (
        rw (set_membership_orphan now s g' p' joined' active seen' (trim_space_idem peer) ep there)
          (refl, refl, ground (arith, get-put_self p' (peer_row times old p' when now) s.peers)))
