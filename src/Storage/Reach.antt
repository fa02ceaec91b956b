-- ===== src/Storage/Reach.antt =====
-- Any sequence of writes to the store, failed ones included, from an empty one.
use skall.Base.{ℕ, ◌≡◌, refl, Bool, Option, none, some, arith, if_intro}
use skall.Bytes.{Bytes, Bytes-eq, trim_space}
use skall.Dict.{get, has, get-empty}
use skall.Protocol.Message.{Message}
use skall.Storage.Rows.{Times, MessageRow, MembershipRow, Pair-eq, Store, new_store}
use skall.Storage.Errors.{StoreError}
use skall.Storage.Peers.{upsert_peer}
use skall.Storage.Membership.{delete_group, upsert_group, set_group_membership}
use skall.Storage.Messages.{
  insert_message, insert_row, message_row, update_message_status, update_row,
}
use skall.Storage.Keys.{
  HasParents, HasParents-same, upsert_peer_peers, delete_group-HasParents, upsert_group-HasParents,
  set_group_membership-HasParents,
}

-- The tables of groups and of memberships are the same.
abbrev KeepsGroups : Store → Store → Type 0
KeepsGroups s t = (t.groups ≡ s.groups) × (t.memberships ≡ s.memberships)

module _ (times : Times) where
  insert_row-KeepsGroups :
      (fault : Option Bytes) (s : Store) (id : Bytes) (row : MessageRow)
      → KeepsGroups s (insert_row times fault s id row).0
  unfolding insert_row
  insert_row-KeepsGroups (some f) s id row = (refl, refl)
  insert_row-KeepsGroups none s id row =
      if_intro (λ (r : Store × Option StoreError). KeepsGroups s r.0) (has id s.messages) _ _
        (λ e. (refl, refl)) (λ e. (refl, refl))

  update_row-KeepsGroups :
      (old : Option MessageRow) (now : ℕ) (s : Store) (id status : Bytes)
      → KeepsGroups s (update_row times old now s id status).0
  unfolding update_row
  update_row-KeepsGroups none now s id status = (refl, refl)
  update_row-KeepsGroups (some row) now s id status = (refl, refl)

  insert_message-KeepsGroups :
      (fault : Option Bytes) (now : ℕ) (s : Store) (m : Message) (direction status : Bytes)
      → KeepsGroups s (insert_message times fault now s m direction status).0
  unfolding insert_message
  insert_message-KeepsGroups fault now s m direction status =
      let keeps = insert_row-KeepsGroups fault s m.id (message_row times m direction status now) in
      (ground (arith, keeps), ground (arith, keeps))

  update_message_status-KeepsGroups :
      (fault : Option Bytes) (now : ℕ) (s : Store) (id status : Bytes)
      → KeepsGroups s (update_message_status times fault now s id status).0
  unfolding update_message_status
  update_message_status-KeepsGroups fault now s id status =
      let keeps =
        update_row-KeepsGroups (get (trim_space id) s.messages) now s (trim_space id) status in
      (ground (arith, keeps), ground (arith, keeps))

  -- One write.
  pub data Step (s : Store) : Store → Type 0 where
    peer :
        (fault : Option Bytes) (now : ℕ) (id name : Bytes) (seen : ℕ)
        → Step s (upsert_peer times fault now s id name seen).0
    group :
        (fault : Option Bytes) (now : ℕ) (id name : Bytes) (created : ℕ)
        → Step s (upsert_group times fault now s id name created).0
    membership :
        (fault fault' : Option Bytes) (now : ℕ) (id peer : Bytes) (joined : ℕ) (active : Bool)
        (seen : ℕ)
        → Step s (set_group_membership times fault fault' now s id peer joined active seen).0
    removal : (fault : Option Bytes) (id : Bytes) → Step s (delete_group fault s id).0
    message :
        (fault : Option Bytes) (now : ℕ) (m : Message) (direction status : Bytes)
        → Step s (insert_message times fault now s m direction status).0
    status :
        (fault : Option Bytes) (now : ℕ) (id status : Bytes)
        → Step s (update_message_status times fault now s id status).0

  pub data Reach : Store → Type 0 where
    start : Reach new_store
    next : {s t : Store} → Reach s → Step s t → Reach t

  step-HasParents : {s t : Store} → Step s t → HasParents s → HasParents t
  step-HasParents {s} (peer fault now id name seen) h =
      let (eg, em) = upsert_peer_peers times fault now s id name seen in HasParents-same s _ eg em h
  step-HasParents {s} (group fault now id name created) h =
      upsert_group-HasParents times fault now s id name created h
  step-HasParents {s} (membership fault fault' now id who joined active seen) h =
      set_group_membership-HasParents times fault fault' now s id who joined active seen h
  step-HasParents {s} (removal fault id) h = delete_group-HasParents fault s id h
  step-HasParents {s} (message fault now m direction as_status) h =
      let (eg, em) = insert_message-KeepsGroups fault now s m direction as_status in
      HasParents-same s _ eg em h
  step-HasParents {s} (status fault now id to_status) h =
      let (eg, em) = update_message_status-KeepsGroups fault now s id to_status in
      HasParents-same s _ eg em h

  -- After any sequence of writes, those included that the engine fails at any statement, each
  -- membership in the store belongs to a group that is in the store.
  Reach-HasParents : {s : Store} → Reach s → HasParents s
  Reach-HasParents start = record {
    parent = λ g p there.
        absurd (ground (arith, get-empty {K = Bytes × Bytes} {V = MembershipRow} (g, p)));
  }
  Reach-HasParents (next r step) = step-HasParents step (Reach-HasParents r)
