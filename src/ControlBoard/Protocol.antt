-- ===== src/ControlBoard/Protocol.antt =====
-- The constants, labels and command names of dashboard/server/src/domains/external-ingest/protocol/
-- controlBoardProtocol.js.
use lidar_dashboard.Prelude.{ℕ, Bool, false, Option, none, some, List, [], ◌∷◌, ◌==◌, if◌then◌else◌}
use lidar_dashboard.Prelude.Text.{Text, codes, trim, to_upper, replace_code, text_eq}

abbrev pub packet_length : ℕ
packet_length = 10

abbrev pub stx : ℕ
stx = 0x02

abbrev pub device_id : ℕ
device_id = 0xa1

abbrev pub etx : ℕ
etx = 0x03

abbrev pub eof : ℕ
eof = 0x0d

pub data TypeLabel : Type 0 where
  command response_log unknown_type : TypeLabel

pub data ModeLabel : Type 0 where
  wait stage_1 stage_2 unknown_mode : ModeLabel

pub data StatusLabel : Type 0 where
  off on barrier_return unknown_status : StatusLabel

pub data SelectLabel : Type 0 where
  all_devices warning_set safety_set led_only speaker_only barrier_only unknown_select : SelectLabel

-- A byte that the packet is too short for is `undefined`, and has no label.
abbrev pub is_byte : Option ℕ → ℕ → Bool
is_byte none b = false
is_byte (some a) b = a == b

unfoldable pub type_label : Option ℕ → TypeLabel
type_label b =
    if is_byte b 0x10 then command else if is_byte b 0x20 then response_log else unknown_type

unfoldable pub mode_label : Option ℕ → ModeLabel
mode_label b =
    if is_byte b 0x00
    then wait
    else if is_byte b 0x01
    then stage_1
    else if is_byte b 0x02
    then stage_2
    else unknown_mode

unfoldable pub status_label : Option ℕ → StatusLabel
status_label b =
    if is_byte b 0x00
    then off
    else if is_byte b 0x01
    then on
    else if is_byte b 0x02
    then barrier_return
    else unknown_status

unfoldable pub select_label : Option ℕ → SelectLabel
select_label b =
    if is_byte b 0x01
    then all_devices
    else if is_byte b 0x02
    then warning_set
    else if is_byte b 0x03
    then safety_set
    else if is_byte b 0x10
    then led_only
    else if is_byte b 0x11
    then speaker_only
    else if is_byte b 0x12
    then barrier_only
    else unknown_select

pub data Command : Type 0 where
  stage_1_on stage_2_on stage_2_return system_reset unknown : Command

abbrev pub command_name : Command → Text
command_name stage_1_on = codes "STAGE_1_ON"
command_name stage_2_on = codes "STAGE_2_ON"
command_name stage_2_return = codes "STAGE_2_RETURN"
command_name system_reset = codes "SYSTEM_RESET"
command_name unknown = codes "UNKNOWN"

unfoldable pub get_protocol_command : ModeLabel → StatusLabel → Command
get_protocol_command stage_1 on = stage_1_on
get_protocol_command stage_2 on = stage_2_on
get_protocol_command stage_2 barrier_return = stage_2_return
get_protocol_command wait off = system_reset
get_protocol_command _ _ = unknown

pub record Mapping : Type 0 where
  pub mode : ℕ
  pub status : ℕ
  pub select : ℕ

-- `COMMAND_PACKET_MAP[command]`.
unfoldable pub packet_map : Text → Option Mapping
unfolding text_eq
packet_map c =
    if text_eq c (command_name stage_1_on)
    then some (record { mode = 0x01; status = 0x01; select = 0x02 })
    else if text_eq c (command_name stage_2_on)
    then some (record { mode = 0x02; status = 0x01; select = 0x01 })
    else if text_eq c (command_name stage_2_return)
    then some (record { mode = 0x02; status = 0x02; select = 0x03 })
    else if text_eq c (command_name system_reset)
    then some (record { mode = 0x00; status = 0x00; select = 0x01 })
    else none

-- `COMMAND_ALIAS`.
abbrev pub aliases : List (Text × Command)
aliases =
    (codes "WARNING_LEVEL_1", stage_1_on)
    ∷ (codes "WRONG_WAY_LEVEL_1", stage_1_on)
    ∷ (codes "STAGE_1", stage_1_on)
    ∷ (codes "WARNING_LEVEL_2", stage_2_on)
    ∷ (codes "WRONG_WAY_LEVEL_2", stage_2_on)
    ∷ (codes "STAGE_2", stage_2_on)
    ∷ (codes "SITUATION_ENDED", stage_2_return)
    ∷ (codes "SITUATION_CLEARED", stage_2_return)
    ∷ (codes "RETURN", stage_2_return)
    ∷ (codes "RESET", system_reset)
    ∷ []

-- `COMMAND_ALIAS[normalized] || normalized`.
unfoldable pub resolve_alias : Text → List (Text × Command) → Text
unfolding text_eq
resolve_alias c [] = c
resolve_alias c ((name, target) ∷ rest) =
    if text_eq c name then command_name target else resolve_alias c rest

unfoldable pub normalize_command : Text → Text
unfolding trim to_upper replace_code resolve_alias
normalize_command command_type =
    resolve_alias (to_upper (replace_code b'-' b'_' (trim command_type))) aliases

pub record Options : Type 0 where
  pub device_id : Option ℕ
  pub mode : Option ℕ
  pub status : Option ℕ
  pub select : Option ℕ
  pub reserved : Option ℕ

abbrev pub no_options : Options
no_options = record { device_id = none; mode = none; status = none; select = none; reserved = none }

-- `value ?? fallback`.
abbrev pub or_else : Option ℕ → ℕ → ℕ
or_else none fallback = fallback
or_else (some n) fallback = n
