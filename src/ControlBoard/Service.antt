-- ===== src/ControlBoard/Service.antt =====
-- The commands to the control board: dashboard/server/src/domains/control-board/
-- controlBoard.service.js. The history in memory is passed through; the TCP client of
-- controlBoardTcp.client.js is a function from what it is asked to send to its outcome. A missing
-- and an empty host are blank, a missing port is 0.
use lidar_dashboard.Prelude.{
  ℕ, Bool, true, false, not, ◌&&◌, ◌||◌, Option, none, some, List, [], ◌∷◌, ltb, ◌==◌,
  if◌then◌else◌, length, take,
}
use lidar_dashboard.Prelude.Text.{Text}
use lidar_dashboard.Prelude.Tables.{find_by}
use lidar_dashboard.ControlBoard.Packet.{to_hex_string}
use lidar_dashboard.ControlBoard.Protocol.{Options}
use lidar_dashboard.ControlBoard.Parser.{Packet, Diagnosis, build_packet, parse_packet, numbers}

pub data CommandStatus : Type 0 where
  dry_run pending ack_received sent_timeout send_failed : CommandStatus

pub record Ack : Type 0 where
  pub hex_string : Text
  pub parsed : Diagnosis

pub record Command : Type 0 where
  pub ok : Bool
  pub command_id : ℕ
  pub command_type : Text
  pub status : CommandStatus
  pub host : Option Text
  pub port : Option ℕ
  pub requested_at : ℕ
  pub sent_at : Option ℕ
  pub ack_at : Option ℕ
  pub ack_received : Bool
  pub timeout : Bool
  pub reason : Option Text
  pub zone_id : Option Text
  pub packet : Packet
  pub ack : Option Ack
  pub error : Option Text

pub record Request : Type 0 where
  pub command_type : Text
  pub host : Text
  pub port : ℕ
  pub timeout_ms : ℕ
  pub dry_run : Bool
  pub reason : Option Text
  pub zone_id : Option Text
  pub options : Options

-- The settings of config, and the id and the times of one call.
pub record Settings : Type 0 where
  pub control_board_host : Text
  pub control_board_port : ℕ
  pub control_board_timeout_ms : ℕ

pub record Stamps : Type 0 where
  pub command_id : ℕ
  pub requested_at : ℕ
  pub sent_at : ℕ
  pub ack_at : ℕ

pub record Target : Type 0 where
  pub host : Text
  pub port : ℕ
  pub timeout_ms : ℕ

-- What `sendTcpPacket` resolves with, or the message of its rejection.
pub data TcpOutcome : Type 0 where
  resolved : (ack_received timeout : Bool) (ack_buffer : List ℕ) → TcpOutcome
  rejected : Text → TcpOutcome

pub data SendResult : Type 0 where
  answered : Command → SendResult
  tcp_failed : Command → SendResult
  command_type_required target_required unsupported_command : SendResult

abbrev pub max_command_history : ℕ
max_command_history = 50

-- `unshift`, and the cut where the list is too long.
unfoldable pub remember_command : Command → List Command → List Command
remember_command c history =
    if ltb max_command_history (length (c ∷ history))
    then take max_command_history (c ∷ history)
    else c ∷ history

abbrev pub has_command_id : ℕ → Command → Bool
has_command_id i c = c.command_id == i

unfoldable pub get_command : ℕ → List Command → Option Command
get_command i history = find_by (has_command_id i) history

unfoldable pub get_command_history : ℕ → List Command → List Command
get_command_history limit history = take limit history

abbrev pub is_blank : Text → Bool
is_blank [] = true
is_blank (c ∷ cs) = false

abbrev text_or : Text → Text → Text
text_or [] t = t
text_or (c ∷ cs) t = c ∷ cs

abbrev number_or : ℕ → ℕ → ℕ
number_or n m = if n == 0 then m else n

unfoldable pub target : Settings → Request → Target
target s r = record {
  host = text_or r.host s.control_board_host;
  port = number_or r.port s.control_board_port;
  timeout_ms = number_or (number_or r.timeout_ms s.control_board_timeout_ms) 3000;
}

abbrev text_or_null : Text → Option Text
text_or_null [] = none
text_or_null (c ∷ cs) = some (c ∷ cs)

abbrev number_or_null : ℕ → Option ℕ
number_or_null n = if n == 0 then none else some n

unfoldable pub base_command : Request → Stamps → Target → Packet → Command
base_command r s t p = record {
  ok = true;
  command_id = s.command_id;
  command_type = p.command;
  status = if r.dry_run then dry_run else pending;
  host = text_or_null t.host;
  port = number_or_null t.port;
  requested_at = s.requested_at;
  sent_at = none;
  ack_at = none;
  ack_received = false;
  timeout = false;
  reason = r.reason;
  zone_id = r.zone_id;
  packet = p;
  ack = none;
  error = none;
}

abbrev ack_of : List ℕ → Option Ack
ack_of [] = none
ack_of (b ∷ bs) =
    some (record { hex_string = to_hex_string (b ∷ bs); parsed = parse_packet (numbers (b ∷ bs)) })

-- The command with what came of sending it.
unfoldable pub sent_command : Command → Stamps → TcpOutcome → Command
sent_command base s (resolved got timed_out buffer) = record base {
  status = if got then ack_received else sent_timeout;
  sent_at = some s.sent_at;
  ack_at = if got then some s.ack_at else none;
  ack_received = got;
  timeout = timed_out;
  ack = ack_of buffer;
}
sent_command base s (rejected message) = record base {
  ok = false;
  status = send_failed;
  sent_at = some s.sent_at;
  error = some message;
}

abbrev pub send_answer : TcpOutcome → Command → SendResult
send_answer (resolved got timed_out buffer) c = answered c
send_answer (rejected message) c = tcp_failed c

abbrev pub Client : Type 0
Client = Target → List ℕ → TcpOutcome

-- A command whose packet was built.
unfoldable pub dispatch :
    Client → Request → Stamps → Target → Packet → List Command → List Command × SendResult
dispatch send r s t p history =
    let base = base_command r s t p in
    let outcome = send t p.bytes in
    let sent = sent_command base s outcome in
    if r.dry_run
    then (remember_command base history, answered base)
    else (remember_command sent history, send_answer outcome sent)

unfoldable pub send_control_board_command :
    Settings → Client → Request → Stamps → List Command → List Command × SendResult
send_control_board_command settings send r s history =
    let t = target settings r in
    if is_blank r.command_type
    then (history, command_type_required)
    else if not r.dry_run && (is_blank t.host || t.port == 0)
    then (history, target_required)
    else elim (build_packet r.command_type r.options) [
      | none ↦ (history, unsupported_command)
      | some p ↦ dispatch send r s t p history
    ]
