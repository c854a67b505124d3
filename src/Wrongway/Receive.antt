-- ===== src/Wrongway/Receive.antt =====
-- `processSnapshot` of dashboard/server/src/domains/wrongway/wrongway.service.js, with
-- `resolveIncidentIfNeeded`, `deactivateMissingTracks` and the response. The steps from the
-- look-up of the incident to the deactivation are one transaction, which runs to its end.
use lidar_dashboard.Prelude.{
  ℕ, ◌-◌, Bool, false, not, ◌&&◌, ◌||◌, Option, none, some, List, [], ◌∷◌, ◌++◌, map, leb, ltb,
  ◌==◌, if◌then◌else◌, length,
}
use lidar_dashboard.Prelude.Tables.{find_by, update_by, count_by, any_by}
use lidar_dashboard.Wrongway.Model.{
  Key, Time, Reason, track_created, track_updated, duplicated_state, event_stored,
  stale_object_skipped, rejected, resolved, Device, Track, Incident, TrafficEvent, Db, Entry,
  Snapshot, unknown_source, no_valid_object, Result, Response, Outcome, ok, err,
}
use lidar_dashboard.Wrongway.Validate.{
  or_else, track_inactive_timeout_ms, validate_snapshot, Accepted, split_objects, nothing_accepted,
  find_source_device,
}
use lidar_dashboard.Wrongway.Rows.{is_open, same_incident, is_ended}
use lidar_dashboard.Wrongway.Process.{Item, process_objects}

abbrev pub entry_is_ended : Entry → Bool
entry_is_ended e = is_ended e.event.original_type

abbrev pub resolve_with : Time → Incident → Incident
resolve_with at i = record i { status = resolved; resolved_at = some at }

-- Only a snapshot with an ended object and no wrong-way object ends the incident at hand.
unfoldable pub resolve_incident_if_needed : Snapshot → Option Incident → Bool → Db → Db
resolve_incident_if_needed s none has_wrong_way db = db
resolve_incident_if_needed s (some i) has_wrong_way db =
    if has_wrong_way || not (any_by entry_is_ended s.objects) then db else record db {
      incidents = update_by (same_incident i.id) (resolve_with s.received_at) db.incidents;
    }

abbrev pub is_listed : Key → List Accepted → Bool
is_listed track [] = false
is_listed track (a ∷ as') = a.track_id == track || is_listed track as'

-- The `where` of `deactivateMissingTracks`. The inactive time is taken off the snapshot's; a
-- difference below 0 is 0, before which no track was seen either.
abbrev pub is_missing : Device → Time → List Accepted → Track → Bool
is_missing d at accepted t =
    t.device_id == d.id
    && t.is_active
    && ltb t.last_seen_at (at - track_inactive_timeout_ms)
    && not (is_listed t.track_id accepted)

abbrev pub deactivated : Time → Track → Track
deactivated at t = record t { is_active = false; ended_at = some at }

abbrev pub snapshot_time : Snapshot → Time
snapshot_time s = or_else s.timestamp s.received_at

unfoldable pub deactivate_missing_tracks : Snapshot → Device → List Accepted → Db → ℕ × Db
deactivate_missing_tracks s d accepted db =
    let missing = is_missing d (snapshot_time s) accepted in
    (
      count_by missing db.tracks,
      record db { tracks = update_by missing (deactivated (snapshot_time s)) db.tracks },
    )

abbrev pub open_in_zone : Key → Incident → Bool
open_in_zone zone i = i.zone_id == zone && is_open i.status

abbrev pub item_is_wrong_way : Item → Bool
item_is_wrong_way i = i.is_wrong_way

-- The transaction: the items, how many tracks were deactivated, and the new database.
unfoldable pub transaction : Snapshot → Device → List Accepted → Db → List Item × ℕ × Db
transaction s d accepted db =
    let (items, incident, db1) =
      process_objects s d accepted (find_by (open_in_zone d.zone_id) db.incidents) db in
    let db2 = resolve_incident_if_needed s incident (any_by item_is_wrong_way items) db1 in
    let (deactivated_count, db3) = deactivate_missing_tracks s d accepted db2 in
    (items, deactivated_count, db3)

-- `sort((left, right) => left.index - right.index)`, which is stable.
unfoldable pub insert_result : Result → List Result → List Result
insert_result r [] = r ∷ []
insert_result r (x ∷ xs) = if leb r.index x.index then r ∷ x ∷ xs else x ∷ insert_result r xs

unfoldable pub sort_results : List Result → List Result
sort_results [] = []
sort_results (r ∷ rs) = insert_result r (sort_results rs)

abbrev reason_number : Reason → ℕ
reason_number track_created = 0
reason_number track_updated = 1
reason_number duplicated_state = 2
reason_number event_stored = 3
reason_number stale_object_skipped = 4
reason_number rejected = 5

abbrev pub is_reason : Reason → Reason → Bool
is_reason a b = reason_number a == reason_number b

abbrev pub has_action : Reason → Result → Bool
has_action a r = is_reason a r.action

abbrev pub has_track_action : Reason → Result → Bool
has_track_action a r = elim r.track_action [ none ↦ false | some b ↦ is_reason a b ]

abbrev pub published_events : List Item → List TrafficEvent
published_events [] = []
published_events (i ∷ is) = elim i.published [
  | none ↦ published_events is
  | some e ↦ e ∷ published_events is
]

abbrev pub item_results : List Item → List Result
item_results = map (λ i. i.result)

unfoldable pub response : Snapshot → List Accepted → List Result → List Item → ℕ → Response
response s accepted refused items deactivated_count =
    let results = sort_results (item_results items ++ refused) in
    record {
      summary = record {
        received = length s.objects;
        accepted = length accepted;
        rejected = length refused;
        tracks_created = count_by (has_track_action track_created) results;
        tracks_updated = count_by (has_track_action track_updated) results;
        events_stored = count_by (has_action event_stored) results;
        duplicates = count_by (has_action duplicated_state) results;
        stale_objects = count_by (has_action stale_object_skipped) results;
        tracks_deactivated = deactivated_count;
      };
      results = results;
      count_warning = s.count_mismatch;
      published = published_events items;
    }

abbrev pub same_device : Key → Device → Bool
same_device i d = d.id == i

abbrev pub touched : Time → Device → Device
touched at d = record d { last_seen_at = some at }

-- The device is marked as seen before its objects are checked, and outside the transaction.
unfoldable pub touch_device : Snapshot → Device → Db → Db
touch_device s d db = record db {
  devices = update_by (same_device d.id) (touched s.received_at) db.devices;
}

unfoldable pub process_from : Snapshot → Device → Db → Db × Outcome
process_from s d db =
    let (accepted, refused) = split_objects s.objects in
    let (items, deactivated_count, db') = transaction s d accepted db in
    if nothing_accepted s
    then (db, err no_valid_object)
    else (db', ok (response s accepted refused items deactivated_count))

-- `!device || device.deviceType !== "LIDAR_PC"`.
abbrev pub lidar_pc : Option Device → Option Device
lidar_pc none = none
lidar_pc (some d) = if d.is_lidar_pc then some d else none

unfoldable pub process_snapshot : Db → Snapshot → Db × Outcome
process_snapshot db s = elim (validate_snapshot s) [
  | some e ↦ (db, err e)
  | none ↦ elim (lidar_pc (find_source_device s.source_device_code db)) [
    | none ↦ (db, err unknown_source)
    | some d ↦ process_from s d (touch_device s d db)
  ]
]
