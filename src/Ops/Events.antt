-- ===== src/Ops/Events.antt =====
-- The events that src/ops.rs publishes and what `get_ops_stream` of src/app_api.rs sends of them. A
-- statement does not fail; the metrics that are sent every five seconds are left out, and a receiver
-- takes each event in time, so that the channel drops none; no row is deleted meanwhile.
pub mod Stream
mod Examples
use catnap.Common.{
  ℕ, zero, suc, String, Bool, true, false, not, ◌&&◌, ltb, leb, max, min, List, [], ◌∷◌, ◌++◌,
  Option, none, some, if◌then◌else◌, map, map_some, keep, take, str_ltb, ℤ, pos, negsuc,
}

pub record StoredOpsEvent : Type 0 where
  pub id : ℕ
  pub event : String
  pub data_json : String
  pub ts : String

-- What is published: the event, its data and its time.
pub record Published : Type 0 where
  pub event : String
  pub data_json : String
  pub ts : String

-- What a publication does, one part after the other: it takes the lock and inserts its row, and then
-- sends the event and gives the lock back. Others may read in between.
pub data Publication : Type 0 where
  inserted : Published → Publication
  sent : Publication

-- The table with the last id that it gave, the event of the publication that has the lock, and what a
-- receiver was sent, once there is one.
pub record EventLog : Type 0 where
  pub rows : List StoredOpsEvent
  pub last_id : ℕ
  pub unsent : Option StoredOpsEvent
  pub received : Option (List StoredOpsEvent)

abbrev pub stored : ℕ → Published → StoredOpsEvent
stored last_id p = record { id = suc last_id; event = p.event; data_json = p.data_json; ts = p.ts }

-- Who finds the lock taken waits.
abbrev pub insert_event : EventLog → Published → Option StoredOpsEvent → EventLog
insert_event s p (some e) = s
insert_event s p none =
    let e = stored s.last_id p in
    record s { rows = s.rows ++ e ∷ []; last_id = suc s.last_id; unsent = some e }

abbrev pub send_event : EventLog → Option StoredOpsEvent → EventLog
send_event s none = s
send_event s (some e) = record s {
  unsent = none;
  received = map_some (λ q. q ++ e ∷ []) s.received;
}

unfoldable pub publish_event_with_ts : EventLog → Publication → EventLog
publish_event_with_ts s (inserted p) = insert_event s p s.unsent
publish_event_with_ts s sent = send_event s s.unsent

abbrev pub publish_all : EventLog → List Publication → EventLog
publish_all s [] = s
publish_all s (p ∷ ps) = publish_all (publish_event_with_ts s p) ps

abbrev pub subscribe : EventLog → EventLog
subscribe s = record s { received = some [] }

unfoldable pub cursor_id : List StoredOpsEvent → ℕ
cursor_id [] = 0
cursor_id (e ∷ rows) = max e.id (cursor_id rows)

abbrev least : ℕ → Option ℕ → ℕ
least n none = n
least n (some m) = min n m

abbrev pub is_recent : String → StoredOpsEvent → Bool
is_recent cutoff e = not (str_ltb e.ts cutoff)

unfoldable pub min_replay_id_since : String → List StoredOpsEvent → Option ℕ
min_replay_id_since cutoff [] = none
min_replay_id_since cutoff (e ∷ rows) =
    let rest = min_replay_id_since cutoff rows in
    if is_recent cutoff e then some (least e.id rest) else rest

unfoldable pub replay_since : ℕ → String → List StoredOpsEvent → List StoredOpsEvent
replay_since after_id cutoff rows =
    take 2000 (keep (λ e. ltb after_id e.id && is_recent cutoff e) rows)

-- What is sent before the events of the receiver, each with its id.
pub data Frame : Type 0 where
  hello metrics : ℕ → Frame
  reset : ℕ → String → Frame
  replayed : StoredOpsEvent → Frame

-- The header `last-event-id`: absent, no number, or a number.
pub data LastEventId : Type 0 where
  absent invalid : LastEventId
  number : ℤ → LastEventId

pub data Resume : Type 0 where
  from_now : Resume
  from_reset : String → Resume
  from_id : ℕ → Resume

abbrev from_min : ℕ → Option ℕ → Resume
from_min id none = from_reset "stale_last_event_id"
from_min id (some least_id) =
    if leb least_id id then from_id id else from_reset "stale_last_event_id"

abbrev pub resume_of : LastEventId → Option ℕ → Resume
resume_of absent min_id = from_now
resume_of invalid min_id = from_reset "invalid_last_event_id"
resume_of (number (negsuc n)) min_id = from_reset "invalid_last_event_id"
resume_of (number (pos zero)) min_id = from_reset "invalid_last_event_id"
resume_of (number (pos (suc n))) min_id = from_min (suc n) min_id

abbrev pub resumed : ℕ → String → List StoredOpsEvent → Resume → List Frame
resumed cursor cutoff rows from_now = []
resumed cursor cutoff rows (from_reset reason) = reset cursor reason ∷ []
resumed cursor cutoff rows (from_id id) = map replayed (replay_since id cutoff rows)

-- The frames that are sent first, and the state with the receiver; the lists are what publications do
-- between the reads of the cursor, of the least id and of the events, and the subscription.
unfoldable pub get_ops_stream :
    EventLog
    → String
    → LastEventId
    → List Publication
    → List Publication
    → List Publication
    → List Frame × EventLog
unfolding publish_event_with_ts cursor_id min_replay_id_since replay_since
get_ops_stream s cutoff last before_min before_replay before_subscribe =
    let cursor = cursor_id s.rows in
    let at_min = publish_all s before_min in
    let at_replay = publish_all at_min before_replay in
    (
      hello cursor
          ∷ metrics cursor
          ∷ resumed cursor cutoff at_replay.rows
              (resume_of last (min_replay_id_since cutoff at_min.rows)),
      subscribe (publish_all at_replay before_subscribe),
    )
