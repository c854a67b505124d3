-- ===== src/Wrongway/Process.antt =====
-- `processSnapshot` of dashboard/server/src/domains/wrongway/wrongway.service.js and the steps
-- that it is made of. A step takes the database and returns the new one; the steps after
-- `validateObjects` are one transaction, which the model runs to its end.
use lidar_dashboard.Prelude.{
  suc, Bool, true, false, not, ◌&&◌, ◌||◌, Option, none, some, List, [], ◌∷◌, ltb, ◌==◌,
  if◌then◌else◌,
}
use lidar_dashboard.Prelude.Tables.{find_by, upsert}
use lidar_dashboard.Wrongway.Model.{
  Key, Time, EventType, pedestrian_entered, pedestrian_exited, type_text, same_type, Reason,
  track_created, track_updated, duplicated_state, event_stored, stale_object_skipped, Device, Track,
  Incident, TrafficEvent, Db, Snapshot, Result,
}
use lidar_dashboard.Wrongway.Validate.{is_some, or_else, or_keep, is_vehicle, Accepted}
use lidar_dashboard.Wrongway.Rows.{
  increment_daily_stat, ensure_active_incident, is_wrong_way, is_normal, is_ended, one_if,
  incident_id, create_traffic_event,
}

abbrev pub track_key : Key → Key → Track → Bool
track_key device track t = t.device_id == device && t.track_id == track

-- `toDateOrNull(event.occurredAt) || new Date(snapshot.receivedAt)`.
abbrev pub object_time : Snapshot → Accepted → Time
object_time s a = or_else a.entry.event.occurred_at s.received_at

abbrev pub ended_time : Bool → Time → Option Time
ended_time true t = some t
ended_time false t = none

-- The `update` of the upsert.
abbrev pub seen_again : Device → Accepted → Time → Track → Track
seen_again d a at t = record t {
  zone_id = d.zone_id;
  external_zone_id = a.external_zone_id;
  last_event_type = event.original_type;
  last_warning_level = one_if (is_wrong_way event.original_type);
  object_class = or_keep event.object_class t.object_class;
  last_confidence = or_keep event.confidence t.last_confidence;
  last_speed_ms = or_keep event.speed_ms t.last_speed_ms;
  last_speed_kmh = or_keep event.speed_kmh t.last_speed_kmh;
  last_seen_at = at;
  is_active = not (is_ended event.original_type);
  ended_at = ended_time (is_ended event.original_type) at;
}
  where
    open a.entry use {event}

-- The `create` of the upsert.
abbrev pub first_seen : Device → Accepted → Time → Key → Track
first_seen d a at id = record {
  id = id;
  device_id = d.id;
  track_id = a.track_id;
  zone_id = d.zone_id;
  external_zone_id = a.external_zone_id;
  last_event_type = event.original_type;
  last_warning_level = one_if (is_wrong_way event.original_type);
  object_class = event.object_class;
  last_confidence = event.confidence;
  last_speed_ms = event.speed_ms;
  last_speed_kmh = event.speed_kmh;
  is_active = not (is_ended event.original_type);
  ended_at = ended_time (is_ended event.original_type) at;
  first_seen_at = at;
  last_seen_at = at;
  raw_payload = a.entry.raw;
}
  where
    open a.entry use {event}

unfoldable pub save_track : Device → Accepted → Time → Db → Db
save_track d a at db = record db {
  tracks =
      upsert (track_key d.id a.track_id) (seen_again d a at) (first_seen d a at db.next_id)
        db.tracks;
  next_id = suc db.next_id;
}

-- The id of the upserted row.
abbrev pub saved_id : Option Track → Db → Key
saved_id none db = db.next_id
saved_id (some t) db = t.id

-- The first sight of a vehicle is counted, a repeated one is not.
unfoldable pub count_first_sight : Snapshot → Device → Accepted → Option Track → Db → Db
count_first_sight s d a existing db =
    if not (is_some existing) && is_vehicle a.entry.event.object_class
    then increment_daily_stat s d
        (record {
          total_vehicle_count = 1;
          normal_vehicle_count = one_if (is_normal a.entry.event.original_type);
          wrong_way_count = 0;
          pedestrian_entered_count = 0;
          pedestrian_exited_count = 0;
        })
        db
    else db

-- `stateChanged`: a new track, one that comes back, or another type.
abbrev pub state_changed : EventType → Option Track → Bool
state_changed type none = true
state_changed type (some t) =
    (not t.is_active && not (is_ended type)) || not (same_type t.last_event_type type)

abbrev pub is_entered : EventType → Bool
is_entered pedestrian_entered = true
is_entered _ = false

abbrev pub is_exited : EventType → Bool
is_exited pedestrian_exited = true
is_exited _ = false

unfoldable pub take_incident : Device → EventType → Option Incident → Db → Option Incident × Db
take_incident d type incident db =
    if is_wrong_way type
    then (let (i, db') = ensure_active_incident d incident db in (some i, db'))
    else (incident, db)

unfoldable pub record_change :
    Snapshot → Device → Accepted → Key → Option Incident → Db → TrafficEvent × Db
record_change s d a vehicle_track incident db =
    let type = a.entry.event.original_type in
    let (e, db') = create_traffic_event a d vehicle_track incident db in
    (
      e,
      increment_daily_stat s d
          (record {
            total_vehicle_count = 0;
            normal_vehicle_count = 0;
            wrong_way_count = one_if (is_wrong_way type);
            pedestrian_entered_count = one_if (is_entered type);
            pedestrian_exited_count = one_if (is_exited type);
          })
          db',
    )

-- What `processObject` returns. `published` is the event of `dashboardEvent`.
pub record Item : Type 0 where
  pub result : Result
  pub incident : Option Incident
  pub is_wrong_way : Bool
  pub published : Option TrafficEvent

abbrev pub track_action : Option Track → Reason
track_action none = track_created
track_action (some t) = track_updated

-- The line of an object that was processed, with its event if one was stored.
abbrev pub object_result : Accepted → Option Track → Option Incident → Option TrafficEvent → Result
object_result a existing incident event = record {
  index = a.entry.index;
  track_id = some a.track_id;
  type = some (type_text type);
  action = elim event [
    | some e ↦ event_stored
    | none ↦ if state_changed type existing then track_action existing else duplicated_state
  ];
  track_action = some (track_action existing);
  event_id = elim event [ some e ↦ some e.id | none ↦ none ];
  incident_id = if is_normal type then none else incident_id incident;
  errors = [];
}
  where
    open a.entry.event use {original_type as type}

abbrev pub stale_item : Accepted → Option Incident → Item
stale_item a incident = record {
  result = record {
    index = a.entry.index;
    track_id = some a.track_id;
    type = some (type_text a.entry.event.original_type);
    action = stale_object_skipped;
    track_action = none;
    event_id = none;
    incident_id = none;
    errors = [];
  };
  incident = incident;
  is_wrong_way = false;
  published = none;
}

abbrev pub is_stale : Option Track → Time → Bool
is_stale none at = false
is_stale (some t) at = ltb at t.last_seen_at

-- The event is stored when the state changed and the object does not just drive normally.
abbrev pub needs_event : EventType → Option Track → Bool
needs_event type existing = state_changed type existing && not (is_normal type)

unfoldable pub finish_object :
    Snapshot → Device → Accepted → Option Track → Key → Option Incident → Db → Item × Db
finish_object s d a existing vehicle_track incident db =
    let type = a.entry.event.original_type in
    if needs_event type existing
    then (let (e, db') = record_change s d a vehicle_track incident db in
        (
          record {
            result = object_result a existing incident (some e);
            incident = incident;
            is_wrong_way = is_wrong_way type;
            published = if is_wrong_way type then some e else none;
          },
          db',
        ))
    else (
      record {
        result = object_result a existing incident none;
        incident = incident;
        is_wrong_way = is_wrong_way type;
        published = none;
      },
      db,
    )

unfoldable pub process_seen :
    Snapshot → Device → Accepted → Option Track → Option Incident → Db → Item × Db
process_seen s d a existing incident db =
    let at = object_time s a in
    let counted = count_first_sight s d a existing (save_track d a at db) in
    let (incident', taken) = take_incident d a.entry.event.original_type incident counted in
    finish_object s d a existing (saved_id existing db) incident' taken

unfoldable pub process_object : Snapshot → Device → Accepted → Option Incident → Db → Item × Db
process_object s d a incident db =
    let existing = find_by (track_key d.id a.track_id) db.tracks in
    if is_stale existing (object_time s a)
    then (stale_item a incident, db)
    else process_seen s d a existing incident db

-- The loop of the transaction: the objects in order, with the incident handed on.
unfoldable pub process_objects :
    Snapshot → Device → List Accepted → Option Incident → Db → List Item × Option Incident × Db
process_objects s d [] incident db = ([], incident, db)
process_objects s d (a ∷ as') incident db =
    let (item, db') = process_object s d a incident db in
    let (items, incident', db'') = process_objects s d as' item.incident db' in
    (item ∷ items, incident', db'')
