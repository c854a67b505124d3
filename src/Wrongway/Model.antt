-- ===== src/Wrongway/Model.antt =====
-- The data of dashboard/server/src/domains/wrongway: the constants, the snapshot as the adapter
-- hands it on, the rows of the tables and the state of the database. Identifiers (of devices,
-- zones, tracks and rows) are texts that the code only compares, and numbers stand for them; a
-- row that is created gets the next number. Times are milliseconds since 1970. A measured value
-- that is stored and never computed with is the bit pattern of its double.
use lidar_dashboard.Prelude.{ℕ, Bool, true, false, Option, List, [], ◌==◌}
use lidar_dashboard.Prelude.Text.{Text, codes}

abbrev pub Key : Type 0
Key = ℕ

abbrev pub Time : Type 0
Time = ℕ

abbrev pub Double : Type 0
Double = ℕ

-- JSON, as its text.
abbrev pub Json : Type 0
Json = Text

-- `unsupported` is any text that is no value of `WRONGWAY_EVENT_TYPE`.
pub data EventType : Type 0 where
  normal_driving wrong_way situation_ended pedestrian_entered pedestrian_exited unsupported :
      EventType

abbrev pub type_text : EventType → Text
type_text normal_driving = codes "normal-driving"
type_text wrong_way = codes "wrong-way"
type_text situation_ended = codes "situation-ended"
type_text pedestrian_entered = codes "pedestrian-entered"
type_text pedestrian_exited = codes "pedestrian-exited"
type_text unsupported = []

abbrev type_number : EventType → ℕ
type_number normal_driving = 0
type_number wrong_way = 1
type_number situation_ended = 2
type_number pedestrian_entered = 3
type_number pedestrian_exited = 4
type_number unsupported = 5

-- `a === b`.
abbrev pub same_type : EventType → EventType → Bool
same_type a b = type_number a == type_number b

abbrev pub is_supported : EventType → Bool
is_supported unsupported = false
is_supported _ = true

pub data Reason : Type 0 where
  track_created track_updated duplicated_state event_stored stale_object_skipped rejected : Reason

pub data IncidentStatus : Type 0 where
  active reset_requested resolved control_failed : IncidentStatus

pub data EventStatus : Type 0 where
  new confirmed resolved_event false_alarm : EventStatus

pub record Device : Type 0 where
  pub id : Key
  pub device_code : Key
  pub is_lidar_pc : Bool
  pub zone_id : Key
  pub last_seen_at : Option Time

pub record Track : Type 0 where
  pub id : Key
  pub device_id : Key
  pub track_id : Key
  pub zone_id : Key
  pub external_zone_id : Key
  pub last_event_type : EventType
  pub last_warning_level : ℕ
  pub object_class : Option ℕ
  pub last_confidence : Option Double
  pub last_speed_ms : Option Double
  pub last_speed_kmh : Option Double
  pub is_active : Bool
  pub ended_at : Option Time
  pub first_seen_at : Time
  pub last_seen_at : Time
  pub raw_payload : Json

pub record Incident : Type 0 where
  pub id : Key
  pub zone_id : Key
  pub source_device_id : Key
  pub status : IncidentStatus
  pub resolved_at : Option Time

pub record TrafficEvent : Type 0 where
  pub id : Key
  pub event_type : EventType
  pub status : EventStatus
  pub occurred_at : Option Time
  pub received_at : Time
  pub zone_id : Key
  pub device_id : Key
  pub incident_id : Option Key
  pub vehicle_track_id : Key
  pub external_zone_id : Key
  pub track_id : Key
  pub warning_level : ℕ
  pub confidence : Option Double
  pub message : Text
  pub speed_ms : Option Double
  pub speed_kmh : Option Double
  pub object_class : Option ℕ
  pub description : Option Text
  pub normal_moving_vehicle_count : Option ℕ
  pub raw_payload : Json

pub data LogAction : Type 0 where
  event_received event_status_changed event_memo_added : LogAction

pub data LogMetadata : Type 0 where
  received : (device_code external_zone_id track_id : Key) → LogMetadata
  manual : (previous_status next_status : EventStatus) → LogMetadata

pub record EventLog : Type 0 where
  pub event_id : Key
  pub user_id : Option Key
  pub action : LogAction
  pub message : Option Text
  pub metadata : LogMetadata

pub record DailyStat : Type 0 where
  pub stat_date : ℕ
  pub zone_id : Key
  pub device_id : Key
  pub total_vehicle_count : ℕ
  pub normal_vehicle_count : ℕ
  pub wrong_way_count : ℕ
  pub pedestrian_entered_count : ℕ
  pub pedestrian_exited_count : ℕ

-- The tables that this component reads and writes. Incidents stand newest first, the order of
-- `startedAt`.
pub record Db : Type 0 where
  pub devices : List Device
  pub tracks : List Track
  pub incidents : List Incident
  pub events : List TrafficEvent
  pub logs : List EventLog
  pub stats : List DailyStat
  pub next_id : ℕ

-- An object of a snapshot as the adapter makes it. `none` is a missing or empty value;
-- `occurred_at` is what `toDateOrNull` makes of it.
pub record Event : Type 0 where
  pub original_type : EventType
  pub external_type : Option Text
  pub track_id : Option Key
  pub external_zone_id : Option Key
  pub occurred_at : Option Time
  pub received_at : Time
  pub confidence : Option Double
  pub message : Text
  pub speed_ms : Option Double
  pub speed_kmh : Option Double
  pub object_class : Option ℕ
  pub description : Option Text
  pub normal_moving_vehicle_count : Option ℕ
  pub raw_payload : Json

pub record Entry : Type 0 where
  pub index : ℕ
  pub raw : Json
  pub event : Event

-- `timestamp` is what `toDateOrNull` makes of it.
pub record Snapshot : Type 0 where
  pub timestamp : Option Time
  pub source_device_code : Option Key
  pub received_at : Time
  pub has_objects_array : Bool
  pub is_legacy_single_object : Bool
  pub count_mismatch : Bool
  pub objects : List Entry

pub data Error : Type 0 where
  bad_timestamp source_required objects_required unknown_source no_valid_object bad_status
        event_not_found :
      Error

abbrev pub status_code : Error → ℕ
status_code unknown_source = 404
status_code event_not_found = 404
status_code _ = 400

pub data ObjectError : Type 0 where
  track_id_required zone_id_required unsupported_type : ObjectError

-- A line of the response's `results`. `type` is the type of an object that was processed, and what
-- a refused one was sent with. `track_action`, `event_id` and `incident_id` are null in the
-- lines that the code writes without them.
pub record Result : Type 0 where
  pub index : ℕ
  pub track_id : Option Key
  pub type : Option Text
  pub action : Reason
  pub track_action : Option Reason
  pub event_id : Option Key
  pub incident_id : Option Key
  pub errors : List ObjectError

pub record Summary : Type 0 where
  pub received : ℕ
  pub accepted : ℕ
  pub rejected : ℕ
  pub tracks_created : ℕ
  pub tracks_updated : ℕ
  pub events_stored : ℕ
  pub duplicates : ℕ
  pub stale_objects : ℕ
  pub tracks_deactivated : ℕ

pub record Response : Type 0 where
  pub summary : Summary
  pub results : List Result
  pub count_warning : Bool
  -- The events that go out to the dashboard once the transaction has ended.
  pub published : List TrafficEvent

pub data Outcome : Type 0 where
  ok : Response → Outcome
  err : Error → Outcome
