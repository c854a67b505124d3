-- ===== src/Wrongway/EventStatus.antt =====
-- `updateEventStatus` of dashboard/server/src/domains/wrongway/wrongway.service.js: what an
-- operator does with a stored event.
use lidar_dashboard.Prelude.{
  ℕ, Bool, true, false, not, ◌&&◌, Option, none, some, List, [], ◌∷◌, ◌++◌, ◌==◌, if◌then◌else◌,
}
use lidar_dashboard.Prelude.Text.{Text, codes, text_eq, trim, to_upper}
use lidar_dashboard.Prelude.Tables.{find_by, update_by}
use lidar_dashboard.Wrongway.Model.{
  Key, EventStatus, new, confirmed, resolved_event, false_alarm, TrafficEvent, event_status_changed,
  event_memo_added, manual, EventLog, Db, Error, bad_status, event_not_found,
}

abbrev pub status_text : EventStatus → Text
status_text new = codes "NEW"
status_text confirmed = codes "CONFIRMED"
status_text resolved_event = codes "RESOLVED"
status_text false_alarm = codes "FALSE_ALARM"

abbrev status_number : EventStatus → ℕ
status_number new = 0
status_number confirmed = 1
status_number resolved_event = 2
status_number false_alarm = 3

abbrev pub same_status : EventStatus → EventStatus → Bool
same_status a b = status_number a == status_number b

abbrev first_status : Text → List EventStatus → Option EventStatus
first_status t [] = none
first_status t (s ∷ ss) = if text_eq t (status_text s) then some s else first_status t ss

-- `String(status || "").trim().toUpperCase()`, where it is in `EVENT_HISTORY_STATUSES`.
unfoldable pub read_status : Text → Option EventStatus
read_status t =
    first_status (to_upper (trim t)) (new ∷ confirmed ∷ resolved_event ∷ false_alarm ∷ [])

-- `typeof memo === "string" ? memo.trim() : ""`.
unfoldable pub normalized_memo : Option Text → Text
normalized_memo none = []
normalized_memo (some t) = trim t

abbrev pub memo_saved : Text → Bool
memo_saved [] = false
memo_saved (c ∷ cs) = true

-- `normalizedMemo || null`.
abbrev memo_message : Text → Option Text
memo_message [] = none
memo_message (c ∷ cs) = some (c ∷ cs)

abbrev pub same_event : Key → TrafficEvent → Bool
same_event i e = e.id == i

abbrev pub with_status : EventStatus → TrafficEvent → TrafficEvent
with_status s e = record e { status = s }

abbrev pub manual_log : Key → Key → Text → EventStatus → EventStatus → EventLog
manual_log event user memo previous next = record {
  event_id = event;
  user_id = some user;
  action = if not (same_status previous next) then event_status_changed else event_memo_added;
  message = memo_message memo;
  metadata = manual previous next;
}

pub record StatusUpdate : Type 0 where
  pub event : TrafficEvent
  pub previous_status : EventStatus
  pub changed : Bool
  pub status_changed : Bool
  pub memo_saved : Bool

pub data StatusResult : Type 0 where
  updated : StatusUpdate → StatusResult
  refused : Error → StatusResult

-- The transaction from the point where the event was found.
unfoldable pub change_status : Db → Key → TrafficEvent → EventStatus → Text → Db × StatusResult
change_status db user existing next memo =
    let status_changed = not (same_status existing.status next) in
    if not status_changed && not (memo_saved memo)
    then (
      db,
      updated (record {
        event = existing;
        previous_status = existing.status;
        changed = false;
        status_changed = false;
        memo_saved = false;
      }),
    )
    else (
      record db {
        events =
            if status_changed
            then update_by (same_event existing.id) (with_status next) db.events
            else db.events;
        logs = db.logs ++ manual_log existing.id user memo existing.status next ∷ [];
      },
      updated (record {
        event = if status_changed then with_status next existing else existing;
        previous_status = existing.status;
        changed = true;
        status_changed = status_changed;
        memo_saved = memo_saved memo;
      }),
    )

unfoldable pub update_event_status : Db → Key → Key → Text → Option Text → Db × StatusResult
update_event_status db event user status memo = elim (read_status status) [
  | none ↦ (db, refused bad_status)
  | some next ↦ elim (find_by (same_event event) db.events) [
    | none ↦ (db, refused event_not_found)
    | some existing ↦ change_status db user existing next (normalized_memo memo)
  ]
]
