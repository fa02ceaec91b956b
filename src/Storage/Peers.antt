-- ===== src/Storage/Peers.antt =====
-- Peers: UpsertPeer and ListPeers. UpsertIdentityMetadata is left out: its table is only written.
-- `fault` is a message of the engine when the statement fails for a reason of its own; the statement
-- then changes nothing. `now` is the clock at the call.
use skall.Base.{ℕ, Bool, Option, none, some, List, map, nat_eq, if◌then◌else◌, Result, ok, err}
use skall.Bytes.{Bytes, Bytes-eq, is_empty, trim_space, bytes_le}
use skall.Dict.{get, put}
use skall.Dict.Sort.{sort}
use skall.Storage.Rows.{Times, must_parse_time, PeerRow, Store, Peer}
use skall.Storage.Errors.{StoreError, peer_id_required, classify_db_error}

-- Rows ordered by a text key.
abbrev pub by_key {ℓ} : {V : Type ℓ} → Bytes × V → Bytes × V → Bool
by_key (j, v) (k, w) = bytes_le j k

module _ (times : Times) where
  -- INSERT INTO peers … ON CONFLICT(peer_id) DO UPDATE
  unfoldable pub peer_row : Option PeerRow → Bytes → ℕ → ℕ → PeerRow
  peer_row none display_name seen_at now = record {
    display_name = display_name;
    last_seen = times.format seen_at;
    created_at = times.format now;
    updated_at = times.format now;
  }
  peer_row (some old) display_name seen_at now = record old {
    display_name = display_name;
    last_seen = times.format seen_at;
    updated_at = times.format now;
  }

  -- UpsertPeer after the arguments are trimmed
  unfoldable pub upsert_peer_row :
      Option Bytes → ℕ → Store → Bytes → Bytes → ℕ → Store × Option StoreError
  upsert_peer_row (some fault) now s peer_id display_name seen_at =
      (s, some (classify_db_error fault))
  upsert_peer_row none now s peer_id display_name seen_at =
      let row = peer_row (get peer_id s.peers) display_name seen_at now in
      (record s { peers = put peer_id row s.peers }, none)

  -- UpsertPeer
  unfoldable pub upsert_peer :
      Option Bytes → ℕ → Store → Bytes → Bytes → ℕ → Store × Option StoreError
  upsert_peer fault now s peer_id display_name seen_at =
      let id = trim_space peer_id in
      let name = trim_space display_name in
      if is_empty id
      then (s, some peer_id_required)
      else upsert_peer_row fault now s id (if is_empty name then id else name)
          (if nat_eq seen_at 0 then now else seen_at)

  unfoldable pub to_peer : Bytes × PeerRow → Peer
  to_peer (id, row) = record {
    peer_id = id;
    display_name = row.display_name;
    last_seen = must_parse_time times row.last_seen;
    created_at = must_parse_time times row.created_at;
    updated_at = must_parse_time times row.updated_at;
  }

  -- ListPeers
  unfoldable pub list_peers : Option Bytes → Store → Result StoreError (List Peer)
  list_peers (some fault) s = err (classify_db_error fault)
  list_peers none s = ok (map to_peer (sort by_key s.peers))
