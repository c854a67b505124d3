-- ===== src/ControlBoard/Parser.antt =====
-- `parseControlBoardPacket` and `buildControlBoardPacket` of dashboard/server/src/domains/external-ingest/protocol/
-- controlBoardProtocol.js.
use lidar_dashboard.Prelude.{
  ℕ, Bool, true, false, Option, none, some, List, [], ◌∷◌, map, ◌==◌, if◌then◌else◌, length,
  get_elem?, take, drop, set,
}
use lidar_dashboard.Prelude.Text.{Text}
use lidar_dashboard.ControlBoard.Crc.{calculate_crc}
use lidar_dashboard.ControlBoard.Packet.{
  nat, number, PacketInput, array, PacketError, Normalized, ok, err, normalize_packet, to_hex,
  to_hex_string,
}
use lidar_dashboard.ControlBoard.Protocol.{
  Command, Mapping, ModeLabel, Options, SelectLabel, StatusLabel, TypeLabel, device_id, eof, etx,
  get_protocol_command, is_byte, mode_label, normalize_command, or_else, packet_length, packet_map,
  select_label, status_label, stx, type_label,
}

pub data FrameError : Type 0 where
  bad_length bad_stx bad_device_id bad_etx bad_eof bad_crc : FrameError

pub data CrcStatus : Type 0 where
  valid invalid not_verified : CrcStatus

-- The labelled fields of a packet; `*_code` are the HEX texts of its bytes.
pub record Parsed : Type 0 where
  pub stx : Text
  pub id : Text
  pub type_code : Text
  pub type : TypeLabel
  pub mode_code : Text
  pub mode : ModeLabel
  pub status_code : Text
  pub status : StatusLabel
  pub select_code : Text
  pub select : SelectLabel
  pub reserved : Text
  pub crc : Text
  pub etx : Text
  pub eof : Text

-- The diagnosis of a packet whose bytes could be read.
pub record Report : Type 0 where
  pub is_valid : Bool
  pub errors : List FrameError
  pub bytes : List ℕ
  pub hex : List Text
  pub packet_size : ℕ
  pub command : Command
  pub parsed : Parsed
  pub data_area : List Text
  pub crc_expected : Option ℕ
  pub crc_calculated : Option ℕ
  pub crc_status : CrcStatus

-- `malformed` is the early return: no bytes, size 0, `NOT_VERIFIED`.
pub data Diagnosis : Type 0 where
  malformed : PacketError → Diagnosis
  read : Report → Diagnosis

abbrev pub same_byte : Option ℕ → Option ℕ → Bool
same_byte (some a) (some b) = a == b
same_byte _ _ = false

abbrev pub check : Bool → FrameError → List FrameError → List FrameError
check true e rest = rest
check false e rest = e ∷ rest

abbrev pub is_empty {ℓ} : {A : Type ℓ} → List A → Bool
is_empty [] = true
is_empty (x ∷ xs) = false

unfoldable pub data_bytes : List ℕ → List ℕ
data_bytes bytes = take 6 (drop 1 bytes)

unfoldable pub crc_calculated : List ℕ → Option ℕ
unfolding data_bytes
crc_calculated bytes =
    if length (data_bytes bytes) == 6 then some (calculate_crc (data_bytes bytes)) else none

unfoldable pub crc_is_valid : List ℕ → Bool
unfolding crc_calculated
crc_is_valid bytes = same_byte (get_elem? bytes 7) (crc_calculated bytes)

unfoldable pub frame_errors : List ℕ → List FrameError
unfolding crc_is_valid
frame_errors bytes = check (length bytes == packet_length) bad_length (
    check (is_byte (get_elem? bytes 0) stx) bad_stx (
      check (is_byte (get_elem? bytes 1) device_id) bad_device_id (
        check (is_byte (get_elem? bytes 8) etx) bad_etx (
          check (is_byte (get_elem? bytes 9) eof) bad_eof
            (check (crc_is_valid bytes) bad_crc [])))))

unfoldable pub code_at : List ℕ → ℕ → Text
code_at bytes i = to_hex (or_else (get_elem? bytes i) 0)

unfoldable pub parsed_fields : List ℕ → Parsed
unfolding code_at type_label mode_label status_label select_label
parsed_fields bytes = record {
  stx = code_at bytes 0;
  id = code_at bytes 1;
  type_code = code_at bytes 2;
  type = type_label (get_elem? bytes 2);
  mode_code = code_at bytes 3;
  mode = mode_label (get_elem? bytes 3);
  status_code = code_at bytes 4;
  status = status_label (get_elem? bytes 4);
  select_code = code_at bytes 5;
  select = select_label (get_elem? bytes 5);
  reserved = code_at bytes 6;
  crc = code_at bytes 7;
  etx = code_at bytes 8;
  eof = code_at bytes 9;
}

-- `parseControlBoardPacket` from the point where the bytes are known.
unfoldable pub report : List ℕ → Report
unfolding frame_errors parsed_fields get_protocol_command
report bytes = record {
  is_valid = is_empty (frame_errors bytes);
  errors = frame_errors bytes;
  bytes = bytes;
  hex = map to_hex bytes;
  packet_size = length bytes;
  command = get_protocol_command (parsed_fields bytes).mode (parsed_fields bytes).status;
  parsed = parsed_fields bytes;
  data_area = map to_hex (data_bytes bytes);
  crc_expected = get_elem? bytes 7;
  crc_calculated = crc_calculated bytes;
  crc_status = if crc_is_valid bytes then valid else invalid;
}

unfoldable pub diagnose : Normalized → Diagnosis
diagnose (err e) = malformed e
diagnose (ok bytes) = read (report bytes)

unfoldable pub parse_packet : PacketInput → Diagnosis
unfolding diagnose
parse_packet packet = diagnose (normalize_packet packet)

pub record Packet : Type 0 where
  pub command : Text
  pub bytes : List ℕ
  pub hex : List Text
  pub hex_string : Text
  pub parsed : Diagnosis

-- The frame before its CRC is put in at index 7.
unfoldable pub blank_frame : Options → Mapping → List ℕ
blank_frame o m =
    stx
    ∷ or_else o.device_id device_id
    ∷ 0x10
    ∷ or_else o.mode m.mode
    ∷ or_else o.status m.status
    ∷ or_else o.select m.select
    ∷ or_else o.reserved 0x00
    ∷ 0x00
    ∷ etx
    ∷ eof
    ∷ []

unfoldable pub frame : Options → Mapping → List ℕ
unfolding blank_frame data_bytes
frame o m = set (blank_frame o m) 7 (calculate_crc (data_bytes (blank_frame o m)))

-- Numbers of an array.
abbrev pub numbers : List ℕ → PacketInput
numbers bytes = array (map (λ b. number (nat b)) bytes)

-- `none` is the exception for a command that is not supported.
unfoldable pub build_packet : Text → Options → Option Packet
unfolding normalize_command packet_map frame parse_packet
build_packet command_type o = elim (packet_map (normalize_command command_type)) [
  | none ↦ none
  | some m ↦ some (record {
    command = normalize_command command_type;
    bytes = frame o m;
    hex = map to_hex (frame o m);
    hex_string = to_hex_string (frame o m);
    parsed = parse_packet (numbers (frame o m));
  })
]
