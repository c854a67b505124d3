-- ===== src/Wrongway/Tests.antt =====
-- Runs of the reception of snapshots, and its theorems at concrete inputs.
use lidar_dashboard.Prelude.{
  map, ℕ, ◌≡◌, refl, true, false, none, some, List, [], ◌∷◌, length, arith,
}
use lidar_dashboard.Prelude.Text.{codes}
use lidar_dashboard.Prelude.Tables.{find_by, update_by, count_by, upsert, any_by}
use lidar_dashboard.Wrongway.Model.{
  Key, Time, EventType, wrong_way, situation_ended, unsupported, type_text, track_created,
  event_stored, rejected, active, resolved, new, Device, TrafficEvent, Db, Event, Entry, Snapshot,
  unknown_source, unsupported_type, Response, ok, err,
}
use lidar_dashboard.Wrongway.Validate.{
  object_errors, validate_snapshot, Accepted, accept, rejected_result, split_objects,
  nothing_accepted, find_source_device,
}
use lidar_dashboard.Wrongway.Rows.{
  increment_daily_stat, ensure_active_incident, create_traffic_event,
}
use lidar_dashboard.Wrongway.Process.{
  save_track, count_first_sight, take_incident, record_change, finish_object, process_seen,
  process_object, process_objects,
}
use lidar_dashboard.Wrongway.Receive.{
  resolve_incident_if_needed, entry_is_ended, deactivate_missing_tracks, open_in_zone,
  item_is_wrong_way, transaction, sort_results, insert_result, response, touch_device, process_from,
  process_snapshot,
}
use lidar_dashboard.Wrongway.Tracks.{Advances, track_at, process_snapshot-Advances}
use lidar_dashboard.Wrongway.Incidents.{Inv}
use lidar_dashboard.Wrongway.Answers.{line_subject, entry_subject}
use lidar_dashboard.Wrongway.Responses.{process_snapshot-answers}
use lidar_dashboard.Wrongway.EventStatus.{
  update_event_status, read_status, change_status, normalized_memo,
}
use lidar_dashboard.Wrongway.AuditTrail.{Logged, update_event_status-Logged}
use lidar_dashboard.Wrongway.SnapshotLog.{process_snapshot-Logged}
use lidar_dashboard.Wrongway.Model.{confirmed}
use lidar_dashboard.Prelude.Text.{text_eq, trim, to_upper}
use lidar_dashboard.Wrongway.Situation.{
  AfterSnapshot, transaction-AfterSnapshot, process_snapshot-Inv,
}
use lidar_dashboard.Wrongway.Replay.{Same}
use lidar_dashboard.Wrongway.Repetition.{transaction-twice}
use lidar_dashboard.Wrongway.Statistics.{Balanced, process_snapshot-Balanced}

-- The definitions that a run computes with.
reception : Unit {0}
unfolding process_snapshot process_from transaction process_objects process_object process_seen
    finish_object record_change take_incident count_first_sight save_track increment_daily_stat
    ensure_active_incident create_traffic_event resolve_incident_if_needed deactivate_missing_tracks
    response sort_results insert_result touch_device validate_snapshot object_errors rejected_result
    accept split_objects nothing_accepted find_source_device find_by update_by count_by upsert
    any_by
reception = tt

abbrev lidar : Device
lidar = record { id = 1; device_code = 70; is_lidar_pc = true; zone_id = 3; last_seen_at = none }

abbrev empty_db : Db
empty_db = record {
  devices = lidar ∷ [];
  tracks = [];
  incidents = [];
  events = [];
  logs = [];
  stats = [];
  next_id = 10;
}

-- An object of a car, seen at a time.
abbrev object : EventType → Key → Time → Event
object type track at = record {
  original_type = type;
  external_type = some (type_text type);
  track_id = some track;
  external_zone_id = some 30;
  occurred_at = some at;
  received_at = at;
  confidence = none;
  message = [];
  speed_ms = none;
  speed_kmh = none;
  object_class = some 2;
  description = none;
  normal_moving_vehicle_count = none;
  raw_payload = [];
}

abbrev entry_of : ℕ → Event → Entry
entry_of i e = record { index = i; raw = []; event = e }

abbrev snapshot_of : Time → List Entry → Snapshot
snapshot_of at entries = record {
  timestamp = some at;
  source_device_code = some 70;
  received_at = at;
  has_objects_array = true;
  is_legacy_single_object = false;
  count_mismatch = false;
  objects = entries;
}

abbrev warning : Snapshot
warning =
    snapshot_of 5000
      (entry_of 0 (object wrong_way 8 5000) ∷ entry_of 1 (object unsupported 9 5000) ∷ [])

abbrev late_end : Snapshot
late_end = snapshot_of 4000 (entry_of 0 (object situation_ended 8 4000) ∷ [])

abbrev warned : Db
unfolding reception
warned = (process_snapshot empty_db warning).0

abbrev warning_event : TrafficEvent
warning_event = record {
  id = 12;
  event_type = wrong_way;
  status = new;
  occurred_at = some 5000;
  received_at = 5000;
  zone_id = 3;
  device_id = 1;
  incident_id = some 11;
  vehicle_track_id = 10;
  external_zone_id = 30;
  track_id = 8;
  warning_level = 1;
  confidence = none;
  message = [];
  speed_ms = none;
  speed_kmh = none;
  object_class = some 2;
  description = none;
  normal_moving_vehicle_count = none;
  raw_payload = [];
}

abbrev warning_response : Response
warning_response = record {
  summary = record {
    received = 2;
    accepted = 1;
    rejected = 1;
    tracks_created = 1;
    tracks_updated = 0;
    events_stored = 1;
    duplicates = 0;
    stale_objects = 0;
    tracks_deactivated = 0;
  };
  results =
      record {
        index = 0;
        track_id = some 8;
        type = some (codes "wrong-way");
        action = event_stored;
        track_action = some track_created;
        event_id = some 12;
        incident_id = some 11;
        errors = [];
      }
      ∷ record {
        index = 1;
        track_id = some 9;
        type = some [];
        action = rejected;
        track_action = none;
        event_id = none;
        incident_id = none;
        errors = unsupported_type ∷ [];
      }
      ∷ [];
  count_warning = false;
  published = warning_event ∷ [];
}

warning_test : (process_snapshot empty_db warning).1 ≡ ok warning_response
unfolding reception
warning_test = refl

-- A situation that ended before the newest sight of its track: the object is skipped, and the
-- incident is closed all the same.
late_end_test :
    ((process_snapshot warned late_end).0.tracks ≡ warned.tracks)
    × (map (λ i. i.status) warned.incidents ≡ active ∷ [])
    × (map (λ i. i.status) (process_snapshot warned late_end).0.incidents ≡ resolved ∷ [])
unfolding reception warned
late_end_test = (refl, refl, refl)

warned_test :
    (length warned.events ≡ 1) × (length warned.incidents ≡ 1) × (length warned.tracks ≡ 1)
unfolding warned
warned_test = (refl, refl, refl)

unknown_source_test :
    (process_snapshot (record empty_db { devices = [] }) warning).1 ≡ err unknown_source
unfolding reception
unknown_source_test = refl

abbrev accepted_of : Snapshot → List Accepted
unfolding reception
accepted_of s = (split_objects s.objects).0

warned-Inv : Inv warned
unfolding reception warned
warned-Inv = record { one_open = λ zone. ground arith; fresh = ground arith }

process_snapshot-Advances_example :
    Advances (track_at 1 8 warned) (track_at 1 8 (process_snapshot warned late_end).0)
process_snapshot-Advances_example = process_snapshot-Advances warned late_end 1 8

process_snapshot-Inv_example : Inv (process_snapshot warned late_end).0
process_snapshot-Inv_example = process_snapshot-Inv warned late_end warned-Inv

transaction-AfterSnapshot_example :
    AfterSnapshot
      (any_by item_is_wrong_way (transaction late_end lidar (accepted_of late_end) warned).0)
      (any_by entry_is_ended late_end.objects)
      (find_by (open_in_zone 3) warned.incidents)
      (find_by
        (open_in_zone 3)
        (transaction late_end lidar (accepted_of late_end) warned).2.incidents)
transaction-AfterSnapshot_example =
    transaction-AfterSnapshot late_end lidar (accepted_of late_end) warned warned-Inv

transaction-twice_example :
    Same
      (transaction warning lidar (accepted_of warning) empty_db).2
      (transaction warning lidar
        (accepted_of warning)
        (transaction warning lidar (accepted_of warning) empty_db).2).2
unfolding accepted_of
transaction-twice_example =
    transaction-twice warning lidar (accepted_of warning) empty_db (refl, tt)

process_snapshot-Balanced_example : Balanced empty_db (process_snapshot empty_db warning).0
process_snapshot-Balanced_example = process_snapshot-Balanced empty_db warning

process_snapshot-answers_example :
    map line_subject warning_response.results ≡ map entry_subject warning.objects
process_snapshot-answers_example =
    process_snapshot-answers empty_db warning warning_response ((omega arith, tt), (tt, tt))
      warning_test

confirm_test :
    map (λ e. e.status) (update_event_status warned 12 5 (codes " confirmed") none).0.events
    ≡ confirmed ∷ []
unfolding reception warned update_event_status read_status change_status normalized_memo text_eq
    trim to_upper
confirm_test = refl

empty_db-Logged : Logged empty_db
empty_db-Logged = record { received_once = tt; told = tt; events_known = tt; lines_known = tt }

process_snapshot-Logged_example : Logged (process_snapshot empty_db warning).0
process_snapshot-Logged_example = process_snapshot-Logged empty_db warning empty_db-Logged

warned-Logged : Logged warned
unfolding reception warned
warned-Logged = record {
  received_once = (refl, tt);
  told = (refl, tt);
  events_known = (omega arith, tt);
  lines_known = (omega arith, tt);
}

update_event_status-Logged_example :
    Logged (update_event_status warned 12 5 (codes " confirmed") (some (codes "ok"))).0
update_event_status-Logged_example =
    update_event_status-Logged warned 12 5 (codes " confirmed") (some (codes "ok")) warned-Logged
