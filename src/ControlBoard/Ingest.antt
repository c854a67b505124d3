-- ===== src/ControlBoard/Ingest.antt =====
-- The events that the control board sends: dashboard/server/src/domains/external-ingest, the
-- adapter controlBoardPacket.adapter.js and, of externalIngest.service.js, the recent events in
-- memory, the effects on the dashboard and the two handlers for the board. A text field that is
-- missing is blank, and fields of an event that nothing here reads are left out. What
-- mockLidarService does with an effect is not looked at.
use lidar_dashboard.Prelude.{
  ℕ, Bool, true, false, not, ◌||◌, Option, none, some, List, [], ◌∷◌, ltb, if◌then◌else◌, length,
  take,
}
use lidar_dashboard.Prelude.Text.{Text, codes, text_eq, to_upper}
use lidar_dashboard.Prelude.Tables.{find_by, count_by}
use lidar_dashboard.ControlBoard.Packet.{PacketInput}
use lidar_dashboard.ControlBoard.Protocol.{
  Command, stage_1_on, stage_2_on, stage_2_return, system_reset, unknown, command_name,
}
use lidar_dashboard.ControlBoard.Parser.{
  CrcStatus, valid, invalid, not_verified, FrameError, Parsed, Diagnosis, malformed, read,
  parse_packet,
}

pub data EventType : Type 0 where
  normal_driving wrong_way pedestrian_entered pedestrian_exited control_stage situation_cleared
        unknown_event :
      EventType

pub record Payload : Type 0 where
  pub id : ℕ
  pub packet : Option PacketInput
  pub command : Text
  pub crc_valid : Option Bool
  pub event_type : Option EventType
  pub stage : Option ℕ
  pub zone_id : Text
  pub device_id : Text
  pub message : Text

pub record Summary : Type 0 where
  pub command : Text
  pub crc_status : CrcStatus
  pub packet_size : ℕ
  pub packet_bytes : List Text
  pub crc_expected : Option ℕ
  pub crc_calculated : Option ℕ
  pub packet_valid : Bool
  pub packet_errors : List FrameError
  pub parsed : Option Parsed

pub record Event : Type 0 where
  pub id : ℕ
  pub event_type : EventType
  pub stage : ℕ
  pub zone_id : Text
  pub device_id : Text
  pub message : Text
  pub received_at : ℕ
  pub raw_summary : Summary

abbrev or_text : Text → Text → Text
or_text [] t = t
or_text (c ∷ cs) t = c ∷ cs

abbrev or_value {ℓ} : {A : Type ℓ} → Option A → A → A
or_value none a = a
or_value (some b) a = b

-- An entry of `COMMAND_EVENT_MAP`.
pub record Meaning : Type 0 where
  pub event_type : EventType
  pub stage : ℕ
  pub message : Text

abbrev meaning_of : Command → Meaning
meaning_of stage_1_on = record {
  event_type = control_stage;
  stage = 1;
  message = codes "통합 제어보드 1차 경고 시작";
}
meaning_of stage_2_on = record {
  event_type = control_stage;
  stage = 2;
  message = codes "통합 제어보드 2차 경고 시작";
}
meaning_of stage_2_return = record {
  event_type = situation_cleared;
  stage = 2;
  message = codes "통합 제어보드 2차 복귀/해제";
}
meaning_of system_reset = record {
  event_type = situation_cleared;
  stage = 0;
  message = codes "통합 제어보드 전체 시스템 리셋";
}
meaning_of unknown = record {
  event_type = unknown_event;
  stage = 0;
  message = codes "통합 제어보드 패킷 수신";
}

abbrev meaning_in : Text → List Command → Meaning
meaning_in t [] = meaning_of unknown
meaning_in t (c ∷ cs) = if text_eq t (command_name c) then meaning_of c else meaning_in t cs

-- `COMMAND_EVENT_MAP[command] || COMMAND_EVENT_MAP.UNKNOWN`.
unfoldable pub command_event_map : Text → Meaning
command_event_map t = meaning_in t (stage_1_on ∷ stage_2_on ∷ stage_2_return ∷ system_reset ∷ [])

unfoldable pub get_fallback_command : Payload → Text
get_fallback_command p = to_upper (or_text p.command (codes "UNKNOWN"))

abbrev named_command : Command → Text → Text
named_command unknown t = t
named_command c t = command_name c

unfoldable pub get_parsed_command : Payload → Option Diagnosis → Text
get_parsed_command p (some (read r)) = named_command r.command (get_fallback_command p)
get_parsed_command p _ = get_fallback_command p

unfoldable pub get_crc_status : Payload → Option Diagnosis → CrcStatus
get_crc_status p (some (read r)) = r.crc_status
get_crc_status p (some (malformed e)) = not_verified
get_crc_status p none = elim p.crc_valid [
  | some true ↦ valid
  | some false ↦ invalid
  | none ↦ not_verified
]

abbrev pub is_valid_status : CrcStatus → Bool
is_valid_status valid = true
is_valid_status _ = false

-- `rawSummary`.
unfoldable pub summary_of : Payload → Option Diagnosis → Summary
summary_of p (some (read r)) = record {
  command = get_parsed_command p (some (read r));
  crc_status = r.crc_status;
  packet_size = r.packet_size;
  packet_bytes = r.hex;
  crc_expected = r.crc_expected;
  crc_calculated = r.crc_calculated;
  packet_valid = r.is_valid;
  packet_errors = r.errors;
  parsed = some r.parsed;
}
summary_of p (some (malformed e)) = record {
  command = get_parsed_command p (some (malformed e));
  crc_status = not_verified;
  packet_size = 0;
  packet_bytes = [];
  crc_expected = none;
  crc_calculated = none;
  packet_valid = false;
  packet_errors = [];
  parsed = none;
}
summary_of p none = record {
  command = get_parsed_command p none;
  crc_status = get_crc_status p none;
  packet_size = 0;
  packet_bytes = [];
  crc_expected = none;
  crc_calculated = none;
  packet_valid = is_valid_status (get_crc_status p none);
  packet_errors = [];
  parsed = none;
}

abbrev pub diagnosis_of : Option PacketInput → Option Diagnosis
diagnosis_of none = none
diagnosis_of (some i) = some (parse_packet i)

unfoldable pub adapt_control_board_packet : Payload → ℕ → Event
adapt_control_board_packet p now =
    let result = diagnosis_of p.packet in
    let mapped = command_event_map (get_parsed_command p result) in
    record {
      id = p.id;
      event_type = or_value p.event_type mapped.event_type;
      stage = or_value p.stage mapped.stage;
      zone_id = or_text p.zone_id (codes "UNKNOWN");
      device_id = or_text p.device_id (codes "CONTROL-BOARD-01");
      message = or_text p.message mapped.message;
      received_at = now;
      raw_summary = summary_of p result;
    }

abbrev pub max_recent_events : ℕ
max_recent_events = 50

unfoldable pub remember_event : Event → List Event → List Event
remember_event e events =
    if ltb max_recent_events (length (e ∷ events))
    then take max_recent_events (e ∷ events)
    else e ∷ events

-- What the dashboard is told: a line of its log, or the event with all that it changes.
pub data Effect : Type 0 where
  log_invalid log : Text → Effect
  show : Event → Effect

abbrev is_invalid_status : CrcStatus → Bool
is_invalid_status invalid = true
is_invalid_status _ = false

abbrev pub is_cleared : EventType → Bool
is_cleared situation_cleared = true
is_cleared _ = false

abbrev pub is_invalid : Event → Bool
is_invalid e = is_invalid_status e.raw_summary.crc_status || not e.raw_summary.packet_valid

unfoldable pub apply_dashboard_effects : Event → List Effect
apply_dashboard_effects e =
    if is_invalid e
    then log_invalid e.message ∷ []
    else if is_cleared e.event_type
    then log e.message ∷ []
    else show e ∷ log e.message ∷ []

-- `ingestControlBoardLive` and `ingestControlBoardMock`.
unfoldable pub ingest_control_board : Payload → ℕ → List Event → List Event × List Effect
ingest_control_board p now events =
    let e = adapt_control_board_packet p now in (remember_event e events, apply_dashboard_effects e)

unfoldable pub get_recent_events : ℕ → List Event → List Event
get_recent_events limit events = take limit events

pub record Status : Type 0 where
  pub total_recent_events : ℕ
  pub invalid_recent_events : ℕ
  pub last_invalid_event : Option Event

unfoldable pub get_ingest_status : List Event → Status
get_ingest_status events = record {
  total_recent_events = length events;
  invalid_recent_events = count_by is_invalid events;
  last_invalid_event = find_by is_invalid events;
}
