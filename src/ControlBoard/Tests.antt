-- ===== src/ControlBoard/Tests.antt =====
-- Runs of the control board's protocol, and its theorems at concrete inputs.
use lidar_dashboard.Prelude.{
  ℕ, ◌≡◌, refl, ◌↔◌, length, take, ◌≤◌, Bool, true, false, none, some, map, List, [], ◌∷◌, arith,
  set,
}
use lidar_dashboard.Prelude.Text.{codes, contains_code, trim}
use lidar_dashboard.ControlBoard.Crc.{AllBytes, calculate_crc}
use lidar_dashboard.ControlBoard.Packet.{
  normalize_packet, text, ok, to_hex_string, text_bytes, tokens, split_words, pairs, all_some,
  parse_byte_token, element_byte, to_hex,
}
use lidar_dashboard.ControlBoard.Protocol.{normalize_command, no_options, command_name, stage_1_on}
use lidar_dashboard.ControlBoard.Parser.{Packet, Report, read, report, build_packet}
use lidar_dashboard.ControlBoard.Service.{
  Command, Request, Settings, Stamps, resolved, answered, sent_timeout, target, base_command,
  sent_command, remember_command, get_command, Client, dispatch, send_control_board_command,
}
use lidar_dashboard.ControlBoard.History.{
  Kept, send_control_board_command-Kept, command_of, get_command-send_control_board_command,
}
use lidar_dashboard.ControlBoard.Parser.{numbers}
use lidar_dashboard.ControlBoard.Ingest.{
  Payload, ingest_control_board, adapt_control_board_packet, apply_dashboard_effects, summary_of,
  remember_event, command_event_map, get_parsed_command, get_fallback_command, get_crc_status,
  max_recent_events,
}
use lidar_dashboard.ControlBoard.Broadcast.{
  is_shown, ingest_control_board-shown, ingest_control_board-recent,
}
use lidar_dashboard.Prelude.Tables.{any_by}
use lidar_dashboard.ControlBoard.Frames.{IsFrame, is_valid_iff, report-set_invalid}
use lidar_dashboard.ControlBoard.Build.{
  IsSupported, build_packet_valid, build_packet_command, build_packet-none_iff,
}
use lidar_dashboard.ControlBoard.HexText.{normalize_packet-to_hex_string}

-- The definitions that a run of the protocol computes with.
protocol : Unit {0}
unfolding build_packet report calculate_crc normalize_packet text_bytes tokens contains_code
    split_words pairs all_some parse_byte_token element_byte trim to_hex_string to_hex
protocol = tt

-- The packet of the first warning.
abbrev first_warning : List ℕ
first_warning = 0x02 ∷ 0xa1 ∷ 0x10 ∷ 0x01 ∷ 0x01 ∷ 0x02 ∷ 0x00 ∷ 0x9b ∷ 0x03 ∷ 0x0d ∷ []

abbrev built : Packet
built = record {
  command = codes "STAGE_1_ON";
  bytes = first_warning;
  hex = map to_hex first_warning;
  hex_string = to_hex_string first_warning;
  parsed = read (report first_warning);
}

build_test : build_packet (codes " wrong-way-level-1") no_options ≡ some built
unfolding protocol
build_test = refl

parse_test : (report first_warning).is_valid ≡ true × ((report first_warning).command ≡ stage_1_on)
unfolding protocol
parse_test = (refl, refl)

hex_string_test : to_hex_string first_warning ≡ codes "02 A1 10 01 01 02 00 9B 03 0D"
unfolding protocol
hex_string_test = refl

first_warning_bytes : AllBytes first_warning
first_warning_bytes = omega arith

is_valid_iff_example : ((report first_warning).is_valid ≡ true) ↔ IsFrame first_warning
is_valid_iff_example = is_valid_iff first_warning

report-set_invalid_example : (report (set first_warning 5 0x03)).is_valid ≡ false
report-set_invalid_example =
    report-set_invalid first_warning 5 0x03 first_warning_bytes (omega arith) (omega arith)
      parse_test.0 (λ e. cc)

build_packet_valid_example :
    IsFrame first_warning
    × (r : Report) × (read (report first_warning) ≡ read r)
    × (r.is_valid ≡ true)
    × (r.bytes ≡ first_warning)
build_packet_valid_example =
    build_packet_valid (codes " wrong-way-level-1") no_options {p = built}
      (record { device = refl; mode = tt; status = tt; select = tt; reserved = tt }) build_test

build_packet_command_example : codes "STAGE_1_ON" ≡ command_name (report first_warning).command
build_packet_command_example =
    build_packet_command (codes " wrong-way-level-1") {p = built} build_test

build_packet-none_iff_example :
    (build_packet (codes "open-gate") no_options ≡ none)
    ↔ (¬ IsSupported (normalize_command (codes "open-gate")))
build_packet-none_iff_example = build_packet-none_iff (codes "open-gate") no_options

normalize_packet-to_hex_string_example :
    normalize_packet (text (to_hex_string first_warning)) ≡ ok first_warning
normalize_packet-to_hex_string_example =
    normalize_packet-to_hex_string 0x02
      (0xa1 ∷ 0x10 ∷ 0x01 ∷ 0x01 ∷ 0x02 ∷ 0x00 ∷ 0x9b ∷ 0x03 ∷ 0x0d ∷ []) first_warning_bytes

-- A dry run of the first warning, and one that is sent and not answered.
service : Unit {0}
unfolding protocol send_control_board_command dispatch target base_command sent_command
    remember_command get_command
service = tt

abbrev settings : Settings
settings = record {
  control_board_host = codes "10.0.0.2";
  control_board_port = 4001;
  control_board_timeout_ms = 3000;
}

abbrev request : Bool → Request
request dry = record {
  command_type = codes " wrong-way-level-1";
  host = [];
  port = 0;
  timeout_ms = 0;
  dry_run = dry;
  reason = none;
  zone_id = none;
  options = no_options;
}

abbrev stamps : Stamps
stamps = record { command_id = 7; requested_at = 100; sent_at = 110; ack_at = 120 }

abbrev silent : Client
silent t bytes = resolved false true []

abbrev unanswered : Command
unanswered = record {
  ok = true;
  command_id = 7;
  command_type = codes "STAGE_1_ON";
  status = sent_timeout;
  host = some (codes "10.0.0.2");
  port = some 4001;
  requested_at = 100;
  sent_at = some 110;
  ack_at = none;
  ack_received = false;
  timeout = true;
  reason = none;
  zone_id = none;
  packet = built;
  ack = none;
  error = none;
}

send_test :
    send_control_board_command settings silent (request false) stamps []
    ≡ (unanswered ∷ [], answered unanswered)
unfolding service
send_test = refl

send_control_board_command-Kept_example :
    Kept (send_control_board_command settings silent (request true) stamps []).0
send_control_board_command-Kept_example =
    send_control_board_command-Kept settings silent (request true) stamps []
      (record { device = refl; mode = tt; status = tt; select = tt; reserved = tt })
      (record { few = omega arith; framed = tt })

sent_test :
    command_of (send_control_board_command settings silent (request false) stamps []).1
    ≡ some unanswered
unfolding service
sent_test = refl

get_command-send_control_board_command_example :
    get_command 7 (send_control_board_command settings silent (request false) stamps []).0
    ≡ some unanswered
get_command-send_control_board_command_example =
    get_command-send_control_board_command settings silent (request false) stamps [] unanswered
      sent_test

ingest : Unit {0}
unfolding protocol ingest_control_board adapt_control_board_packet apply_dashboard_effects
    summary_of remember_event command_event_map get_parsed_command get_fallback_command
    get_crc_status any_by
ingest = tt

abbrev payload : List ℕ → Payload
payload bytes = record {
  id = 1;
  packet = some (numbers bytes);
  command = [];
  crc_valid = none;
  event_type = none;
  stage = none;
  zone_id = [];
  device_id = [];
  message = [];
}

shown_test : any_by is_shown (ingest_control_board (payload first_warning) 5 []).1 ≡ true
unfolding ingest
shown_test = refl

hidden_test :
    any_by is_shown (ingest_control_board (payload (set first_warning 5 3)) 5 []).1 ≡ false
unfolding ingest
hidden_test = refl

ingest_control_board-shown_example : IsFrame first_warning
ingest_control_board-shown_example =
    ingest_control_board-shown (payload first_warning) first_warning 5 [] first_warning_bytes refl
      shown_test

ingest_control_board-recent_example :
    (length (ingest_control_board (payload first_warning) 5 []).0 ≤ max_recent_events)
    × (take 1 (ingest_control_board (payload first_warning) 5 []).0
        ≡ adapt_control_board_packet (payload first_warning) 5 ∷ [])
ingest_control_board-recent_example =
    ingest_control_board-recent (payload first_warning) 5 [] (omega arith)
