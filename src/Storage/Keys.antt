-- ===== src/Storage/Keys.antt =====
-- The foreign key of group_memberships, and the methods on groups (internal/storage/store.go).
use skall.Base.{
  ℕ, ◌≡◌, Bool, true, not, Option, none, some, [], ◌∷◌, arith, eq_iff, ◌==◌, if◌then◌else◌,
  if_intro,
}
use skall.Bytes.{Bytes, Bytes-eq, is_empty, trim_space}
use skall.Dict.{Dict, get, has, get-put, has-put, get-delete}
use skall.Storage.Rows.{Times, MembershipRow, Store, Pair-eq}
use skall.Storage.Errors.{StoreError}
use skall.Storage.Peers.{upsert_peer, upsert_peer_row}
use skall.Storage.Membership.{
  without_group, delete_group, upsert_group, upsert_group_row, group_row, membership_row,
  membership_statement, then_membership, set_membership, set_group_membership,
}

-- Every membership belongs to a group that is there.
pub record HasParents (s : Store) : Type 0 where
  pub parent : (g p : Bytes) → has (g, p) s.memberships ≡ true → has g s.groups ≡ true

get-without_group :
    (id g p : Bytes) (m : Dict (Bytes × Bytes) MembershipRow)
    → get (g, p) (without_group id m) ≡ (if id == g then none else get (g, p) m)
unfolding without_group get
get-without_group id g p [] = ground arith
get-without_group id g p (((h, q), row) ∷ m) =
    ground (arith, get-without_group id g p m, eq_iff h id, eq_iff id g, eq_iff h g, eq_iff q p)

-- DeleteGroup of a group that is there removes it with all of its memberships, and leaves every other
-- group, every other membership and all peers and messages as they are.
delete_group_lem :
    (s : Store) (group_id : Bytes)
    → (delete_group none s group_id).1 ≡ none
    → let s' = (delete_group none s group_id).0 in
      let id = trim_space group_id in
      (has id s.groups ≡ true)
      × ((g : Bytes) → get g s'.groups ≡ (if id == g then none else get g s.groups))
      × ((g p : Bytes)
          → get (g, p) s'.memberships ≡ (if id == g then none else get (g, p) s.memberships))
      × (s'.peers ≡ s.peers)
      × (s'.messages ≡ s.messages)
unfolding delete_group
delete_group_lem s group_id h =
    let id = trim_space group_id in
    (
      ground arith,
      λ g. ground (arith, get-delete g id s.groups),
      λ g p. ground (arith, get-without_group id g p s.memberships),
      ground arith,
      ground arith,
    )

pub upsert_peer_peers :
    (times : Times) (fault : Option Bytes) (now : ℕ) (s : Store) (peer name : Bytes) (seen : ℕ)
    → ((upsert_peer times fault now s peer name seen).0.groups ≡ s.groups)
      × ((upsert_peer times fault now s peer name seen).0.memberships ≡ s.memberships)
unfolding upsert_peer upsert_peer_row
upsert_peer_peers times none now s peer name seen = (ground arith, ground arith)
upsert_peer_peers times (some f) now s peer name seen = (ground arith, ground arith)

pub HasParents-same :
    (s s' : Store)
    → s'.groups ≡ s.groups
    → s'.memberships ≡ s.memberships
    → HasParents s
    → HasParents s'
HasParents-same s s' eg em h = record { parent = λ g p there. ground (arith, h.parent g p, eg, em) }

pub delete_group-HasParents :
    (fault : Option Bytes) (s : Store) (group_id : Bytes)
    → HasParents s
    → HasParents (delete_group fault s group_id).0
unfolding delete_group
delete_group-HasParents (some f) s group_id h =
    if_intro (λ (r : Store × Option StoreError). HasParents r.0) (is_empty (trim_space group_id)) _
      _ (λ e. h) (λ e. h)
delete_group-HasParents none s group_id h =
    let id = trim_space group_id in
    if_intro (λ (r : Store × Option StoreError). HasParents r.0) (is_empty id) _ _ (λ e. h)
      λ e.
        if_intro (λ (r : Store × Option StoreError). HasParents r.0) (has id s.groups) _ _
          (λ e'. record {
            parent = λ g p there. ground (
              arith,
              h.parent g p,
              get-delete g id s.groups,
              get-without_group id g p s.memberships,
            );
          })
          (λ e'. h)

membership_statement-HasParents :
    (times : Times) (fault : Option Bytes) (now : ℕ) (s : Store) (group peer : Bytes) (joined : ℕ)
    (active : Bool) (seen : ℕ)
    → HasParents s
    → HasParents (membership_statement times fault now s group peer joined active seen).0
unfolding membership_statement
membership_statement-HasParents times (some f) now s group peer joined active seen h = h
membership_statement-HasParents times none now s group peer joined active seen h =
    if_intro (λ (r : Store × Option StoreError). HasParents r.0) (not (has group s.groups)) _ _
      (λ e. h)
      (λ e. record {
        parent = λ g p there. ground (
          arith,
          h.parent g p,
          get-put {K = Bytes × Bytes} (g, p) (group, peer)
              (membership_row times (get (group, peer) s.memberships) joined active seen now)
              s.memberships,
          eq_iff group g,
        );
      })

then_membership-HasParents :
    (times : Times) (r : Store × Option StoreError) (fault : Option Bytes) (now : ℕ)
    (group peer : Bytes) (joined : ℕ) (active : Bool) (seen : ℕ)
    → HasParents r.0
    → HasParents (then_membership times r fault now group peer joined active seen).0
unfolding then_membership
then_membership-HasParents times (s, some e) fault now group peer joined active seen h = h
then_membership-HasParents times (s, none) fault now group peer joined active seen h =
    membership_statement-HasParents times fault now s group peer joined active seen h

set_membership-HasParents :
    (times : Times) (fault fault' : Option Bytes) (now : ℕ) (s : Store) (group peer : Bytes)
    (joined : ℕ) (active : Bool) (seen : ℕ)
    → HasParents s
    → HasParents (set_membership times fault fault' now s group peer joined active seen).0
unfolding set_membership
set_membership-HasParents times fault fault' now s group peer joined active seen h =
    let r = upsert_peer times fault now s peer peer seen in
    let (eg, em) = upsert_peer_peers times fault now s peer peer seen in
    then_membership-HasParents times r fault' now group peer joined active seen
      (HasParents-same s r.0 eg em h)

pub set_group_membership-HasParents :
    (times : Times) (fault fault' : Option Bytes) (now : ℕ) (s : Store) (group peer : Bytes)
    (joined : ℕ) (active : Bool) (seen : ℕ)
    → HasParents s
    → HasParents (set_group_membership times fault fault' now s group peer joined active seen).0
unfolding set_group_membership
set_group_membership-HasParents times fault fault' now s group peer joined active seen h =
    if_intro (λ (r : Store × Option StoreError). HasParents r.0) (is_empty (trim_space group)) _ _
      (λ e. h)
      (λ e.
        if_intro (λ (r : Store × Option StoreError). HasParents r.0) (is_empty (trim_space peer)) _
          _ (λ e. h)
          (λ e.
            set_membership-HasParents times fault fault' now s (trim_space group) (trim_space peer)
              _ active _ h))

upsert_group_row-HasParents :
    (times : Times) (fault : Option Bytes) (now : ℕ) (s : Store) (id name : Bytes) (created : ℕ)
    → HasParents s
    → HasParents (upsert_group_row times fault now s id name created).0
unfolding upsert_group_row
upsert_group_row-HasParents times (some f) now s id name created h = h
upsert_group_row-HasParents times none now s id name created h = record {
  parent = λ g p there. ground (
    arith,
    h.parent g p,
    has-put g id (group_row times (get id s.groups) name created now) s.groups,
  );
}

pub upsert_group-HasParents :
    (times : Times) (fault : Option Bytes) (now : ℕ) (s : Store) (id name : Bytes) (created : ℕ)
    → HasParents s
    → HasParents (upsert_group times fault now s id name created).0
unfolding upsert_group
upsert_group-HasParents times fault now s id name created h =
    if_intro (λ (r : Store × Option StoreError). HasParents r.0) (is_empty (trim_space id)) _ _
      (λ e. h)
      (λ e.
        if_intro (λ (r : Store × Option StoreError). HasParents r.0) (is_empty (trim_space name)) _
          _ (λ e. h)
          (λ e.
            upsert_group_row-HasParents times fault now s (trim_space id) (trim_space name) _ h))
