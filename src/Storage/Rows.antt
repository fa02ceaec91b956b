-- ===== src/Storage/Rows.antt =====
-- The tables of the first migration, as maps from primary keys to rows, and the records that the
-- methods return. A time column holds text; `Times` is time.Format and time.Parse at RFC3339Nano.
use mathlib.Core.Logic.{◌↔◌}
use skall.Base.{
  ℕ, ◌≡◌, ◌<◌, Bool, true, false, ◌&&◌, Option, none, some, HasEquals, arith, if◌then◌else◌,
}
use skall.Bytes.{Bytes, Bytes-eq, bytes_eq, bytes_eq_iff, is_empty, lit, trim_space}
use skall.Dict.{Dict, empty}
use skall.Protocol.Message.{Message}

-- The first nanosecond of the year 10000 (UTC), counted from the zero time in the year 1.
abbrev pub year_10000 : ℕ
year_10000 = 315537897600000000000

-- time.Time as text, in UTC: what is formatted is parsed back, where its year has four digits, and no
-- time is the empty text.
pub record Times : Type 0 where
  pub format : ℕ → Bytes
  pub parse : Bytes → Option ℕ
  pub parse-format : (t : ℕ) → t < year_10000 → parse (format t) ≡ some t
  pub format_given : (t : ℕ) → is_empty (format t) ≡ false

-- mustParseTime: the zero time for what is no time
unfoldable pub must_parse_time : Times → Bytes → ℕ
must_parse_time times raw =
    if is_empty raw then 0 else elim (times.parse raw) [ none ↦ 0 | some t ↦ t ]

pub must_parse_time-format :
    (times : Times) (t : ℕ) → t < year_10000 → must_parse_time times (times.format t) ≡ t
unfolding must_parse_time
must_parse_time-format times t h = ground (arith, times.parse-format t h, times.format_given t)

abbrev pub pair_eq : Bytes × Bytes → Bytes × Bytes → Bool
pair_eq (a, b) (c, d) = bytes_eq a c && bytes_eq b d

pub pair_eq_iff : (p q : Bytes × Bytes) → (pair_eq p q ≡ true) ↔ (p ≡ q)
pair_eq_iff (a, b) (c, d) = ground (arith, bytes_eq_iff a c, bytes_eq_iff b d)

instance abbrev pub Pair-eq : HasEquals (Bytes × Bytes)
Pair-eq = record { equals = pair_eq; equals_iff = pair_eq_iff }

pub record PeerRow : Type 0 where
  pub display_name : Bytes
  pub last_seen : Bytes
  pub created_at : Bytes
  pub updated_at : Bytes

pub record GroupRow : Type 0 where
  pub name : Bytes
  pub created_at : Bytes
  pub updated_at : Bytes

pub record MembershipRow : Type 0 where
  pub joined_at : Bytes
  pub active : ℕ
  pub last_seen : Bytes
  pub updated_at : Bytes

-- `none` is NULL.
pub record MessageRow : Type 0 where
  pub version : ℕ
  pub type : Bytes
  pub sender_id : Bytes
  pub recipient_id : Option Bytes
  pub group_id : Option Bytes
  pub timestamp : Bytes
  pub body : Bytes
  pub direction : Bytes
  pub status : Bytes
  pub created_at : Bytes
  pub updated_at : Bytes

pub record Store : Type 0 where
  pub peers : Dict Bytes PeerRow
  pub groups : Dict Bytes GroupRow
  pub memberships : Dict (Bytes × Bytes) MembershipRow
  pub messages : Dict Bytes MessageRow

abbrev pub new_store : Store
new_store = record { peers = empty; groups = empty; memberships = empty; messages = empty }

pub record Peer : Type 0 where
  pub peer_id : Bytes
  pub display_name : Bytes
  pub last_seen : ℕ
  pub created_at : ℕ
  pub updated_at : ℕ

pub record StoredGroup : Type 0 where
  pub group_id : Bytes
  pub name : Bytes
  pub created_at : ℕ
  pub updated_at : ℕ

pub record GroupMembership : Type 0 where
  pub group_id : Bytes
  pub peer_id : Bytes
  pub joined_at : ℕ
  pub active : Bool
  pub last_seen : ℕ
  pub updated_at : ℕ

pub record StoredMessage : Type 0 where
  pub message : Message
  pub direction : Bytes
  pub status : Bytes
  pub created_at : ℕ
  pub updated_at : ℕ

abbrev pub direction_inbound : Bytes
direction_inbound = lit "inbound"

abbrev pub direction_outbound : Bytes
direction_outbound = lit "outbound"

abbrev pub status_pending : Bytes
status_pending = lit "pending"

abbrev pub status_sent : Bytes
status_sent = lit "sent"

abbrev pub status_received : Bytes
status_received = lit "received"

abbrev pub status_failed : Bytes
status_failed = lit "failed"

-- nullIfEmpty
unfoldable pub null_if_empty : Bytes → Option Bytes
null_if_empty value =
    let trimmed = trim_space value in if is_empty trimmed then none else some trimmed
