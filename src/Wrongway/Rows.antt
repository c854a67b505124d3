-- ===== src/Wrongway/Rows.antt =====
-- The rows that a snapshot writes: `incrementDailyStat`, `ensureActiveIncident` and
-- `createTrafficEvent` of dashboard/server/src/domains/wrongway/wrongway.service.js.
use lidar_dashboard.Prelude.{
  ℕ, suc, ◌+◌, Bool, true, false, ◌&&◌, Option, none, some, [], ◌∷◌, ◌++◌, ◌==◌, if◌then◌else◌,
}
use lidar_dashboard.Prelude.Text.{codes}
use lidar_dashboard.Prelude.Tables.{update_by, upsert}
use lidar_dashboard.Wrongway.Model.{
  Key, EventType, normal_driving, wrong_way, situation_ended, type_text, IncidentStatus, active,
  resolved, new, Device, Incident, TrafficEvent, event_received, received, EventLog, DailyStat, Db,
  Snapshot,
}
use lidar_dashboard.Wrongway.Validate.{or_else, Accepted, kst_stat_date}

pub record Increments : Type 0 where
  pub total_vehicle_count : ℕ
  pub normal_vehicle_count : ℕ
  pub wrong_way_count : ℕ
  pub pedestrian_entered_count : ℕ
  pub pedestrian_exited_count : ℕ

abbrev pub stat_key : ℕ → Device → DailyStat → Bool
stat_key date d s = s.stat_date == date && s.zone_id == d.zone_id && s.device_id == d.id

abbrev pub add_stat : Increments → DailyStat → DailyStat
add_stat i s = record s {
  total_vehicle_count = s.total_vehicle_count + i.total_vehicle_count;
  normal_vehicle_count = s.normal_vehicle_count + i.normal_vehicle_count;
  wrong_way_count = s.wrong_way_count + i.wrong_way_count;
  pedestrian_entered_count = s.pedestrian_entered_count + i.pedestrian_entered_count;
  pedestrian_exited_count = s.pedestrian_exited_count + i.pedestrian_exited_count;
}

abbrev pub new_stat : ℕ → Device → Increments → DailyStat
new_stat date d i = record {
  stat_date = date;
  zone_id = d.zone_id;
  device_id = d.id;
  total_vehicle_count = i.total_vehicle_count;
  normal_vehicle_count = i.normal_vehicle_count;
  wrong_way_count = i.wrong_way_count;
  pedestrian_entered_count = i.pedestrian_entered_count;
  pedestrian_exited_count = i.pedestrian_exited_count;
}

-- `toDateOrNull(snapshot.timestamp) || new Date()`: the snapshot's time is known to be valid here.
unfoldable pub increment_daily_stat : Snapshot → Device → Increments → Db → Db
increment_daily_stat s d i db =
    let date = kst_stat_date (or_else s.timestamp s.received_at) in
    record db { stats = upsert (stat_key date d) (add_stat i) (new_stat date d i) db.stats }

abbrev pub is_open : IncidentStatus → Bool
is_open resolved = false
is_open _ = true

abbrev pub is_active_status : IncidentStatus → Bool
is_active_status active = true
is_active_status _ = false

abbrev pub same_incident : Key → Incident → Bool
same_incident i x = x.id == i

abbrev pub reactivated_incident : Incident → Incident
reactivated_incident i = record i { status = active; resolved_at = none }

abbrev pub new_incident : Device → Key → Incident
new_incident d id = record {
  id = id;
  zone_id = d.zone_id;
  source_device_id = d.id;
  status = active;
  resolved_at = none;
}

unfoldable pub ensure_active_incident : Device → Option Incident → Db → Incident × Db
ensure_active_incident d none db =
    let i = new_incident d db.next_id in
    (i, record db { incidents = i ∷ db.incidents; next_id = suc db.next_id })
ensure_active_incident d (some i) db = if is_active_status i.status then (i, db) else (
  reactivated_incident i,
  record db { incidents = update_by (same_incident i.id) reactivated_incident db.incidents },
)

abbrev pub is_wrong_way : EventType → Bool
is_wrong_way wrong_way = true
is_wrong_way _ = false

abbrev pub is_normal : EventType → Bool
is_normal normal_driving = true
is_normal _ = false

abbrev pub is_ended : EventType → Bool
is_ended situation_ended = true
is_ended _ = false

abbrev pub one_if : Bool → ℕ
one_if true = 1
one_if false = 0

abbrev pub incident_id : Option Incident → Option Key
incident_id none = none
incident_id (some i) = some i.id

abbrev pub traffic_event : Accepted → Device → Key → Option Incident → Key → TrafficEvent
traffic_event a d vehicle_track incident id = record {
  id = id;
  event_type = event.original_type;
  status = new;
  occurred_at = event.occurred_at;
  received_at = event.received_at;
  zone_id = d.zone_id;
  device_id = d.id;
  incident_id = incident_id incident;
  vehicle_track_id = vehicle_track;
  external_zone_id = a.external_zone_id;
  track_id = a.track_id;
  warning_level = one_if (is_wrong_way event.original_type);
  confidence = event.confidence;
  message = event.message;
  speed_ms = event.speed_ms;
  speed_kmh = event.speed_kmh;
  object_class = event.object_class;
  description = event.description;
  normal_moving_vehicle_count = event.normal_moving_vehicle_count;
  raw_payload = event.raw_payload;
}
  where
    open a.entry use {event}

abbrev pub received_log : Accepted → Device → Key → EventLog
received_log a d id = record {
  event_id = id;
  user_id = none;
  action = event_received;
  message = some (type_text a.entry.event.original_type ++ codes " 이벤트를 수신했습니다.");
  metadata = received d.device_code a.external_zone_id a.track_id;
}

unfoldable pub create_traffic_event :
    Accepted → Device → Key → Option Incident → Db → TrafficEvent × Db
create_traffic_event a d vehicle_track incident db =
    let e = traffic_event a d vehicle_track incident db.next_id in
    (
      e,
      record db {
        events = db.events ++ e ∷ [];
        logs = db.logs ++ received_log a d e.id ∷ [];
        next_id = suc db.next_id;
      },
    )
