-- ===== src/ControlBoard/Build.antt =====
-- The packets that `buildControlBoardPacket` makes, read back by `parseControlBoardPacket`.
use lidar_dashboard.Prelude.{
  ℕ, ◌<◌, ◌≡◌, refl, ◌≢◌, ◌↔◌, ◌⊎◌, inl, inr, true, Option, none, some, [], ◌∷◌, map, arith,
  Option-cases,
}
use lidar_dashboard.Prelude.Text.{Text, text_eq→≡}
use lidar_dashboard.ControlBoard.Crc.{AllBytes, calculate_crc-lt}
use lidar_dashboard.ControlBoard.Protocol.{
  device_id, Options, Mapping, or_else, packet_map, normalize_command, command_name, no_options,
  stage_1_on, stage_2_on, stage_2_return, system_reset,
}
use lidar_dashboard.ControlBoard.Parser.{
  Report, Packet, read, report, parse_packet, numbers, frame, build_packet,
}
use lidar_dashboard.ControlBoard.Packet.{to_hex, to_hex_string}
use lidar_dashboard.ControlBoard.Frames.{IsFrame, is_valid_iff, parse_packet-numbers}

-- An override that is given is a byte.
abbrev pub IsByte? : Option ℕ → Type 0
IsByte? none = Unit {0}
IsByte? (some b) = b < 256

-- The overrides are bytes, and the device is not overridden.
pub record IsPlain (o : Options) : Type 0 where
  pub device : o.device_id ≡ none
  pub mode : IsByte? o.mode
  pub status : IsByte? o.status
  pub select : IsByte? o.select
  pub reserved : IsByte? o.reserved

abbrev IsSmall : Mapping → Type 0
IsSmall m = (m.mode < 256) × (m.status < 256) × (m.select < 256)

packet_map-IsSmall : (c : Text) {m : Mapping} → packet_map c ≡ some m → IsSmall m
unfolding packet_map
packet_map-IsSmall c h = ground arith

or_else-lt : (o : Option ℕ) (n : ℕ) → IsByte? o → n < 256 → or_else o n < 256
or_else-lt none n h k = k
or_else-lt (some b) n h k = h

frame-IsFrame : (o : Options) (m : Mapping) → o.device_id ≡ none → IsFrame (frame o m)
unfolding frame
frame-IsFrame o m e = (
  0x10,
  or_else o.mode m.mode,
  or_else o.status m.status,
  or_else o.select m.select,
  or_else o.reserved 0,
  rw e,
)

frame-AllBytes : (o : Options) (m : Mapping) → IsPlain o → IsSmall m → AllBytes (frame o m)
unfolding frame
frame-AllBytes o m p k =
    let a = or_else-lt o.mode m.mode p.mode k.0 in
    let b = or_else-lt o.status m.status p.status k.1 in
    let c = or_else-lt o.select m.select p.select k.2 in
    let d = or_else-lt o.reserved 0 p.reserved (omega arith) in
    let e =
      calculate_crc-lt
        (device_id
          ∷ 0x10
          ∷ or_else o.mode m.mode
          ∷ or_else o.status m.status
          ∷ or_else o.select m.select
          ∷ or_else o.reserved 0
          ∷ [])
        (omega arith) in
    rw p.device (omega arith)

-- `build_packet` succeeds for a command of the table, and then makes this packet.
abbrev packet_of : Text → Options → Mapping → Packet
packet_of t o m = record {
  command = normalize_command t;
  bytes = frame o m;
  hex = map to_hex (frame o m);
  hex_string = to_hex_string (frame o m);
  parsed = parse_packet (numbers (frame o m));
}

build_packet_inv :
    (t : Text) (o : Options) {p : Packet}
    → build_packet t o ≡ some p
    → (m : Mapping) × (packet_map (normalize_command t) ≡ some m) × (p ≡ packet_of t o m)
unfolding build_packet
build_packet_inv t o h = elim (Option-cases (packet_map (normalize_command t))) [
  | inl e ↦ absurd (ground arith)
  | inr (m, e) ↦ (m, e, ground arith)
]

-- A packet that is built with overrides that are bytes, for the board itself, is a frame of the
-- protocol, and the parse stored with it finds it valid, with the same bytes.
pub build_packet_valid :
    (t : Text) (o : Options) {p : Packet}
    → IsPlain o
    → build_packet t o ≡ some p
    → IsFrame p.bytes
      × (r : Report) × (p.parsed ≡ read r)
      × (r.is_valid ≡ true)
      × (r.bytes ≡ p.bytes)
unfolding report
build_packet_valid t o plain h =
    let (m, e, eq) = build_packet_inv t o h in
    let f = frame-IsFrame o m plain.device in
    rw eq (
      f,
      report (frame o m),
      parse_packet-numbers (frame o m) (frame-AllBytes o m plain (packet_map-IsSmall _ e)),
      (is_valid_iff (frame o m)).1 f,
      refl,
    )

packet_map_command :
    (t : Text) {m : Mapping}
    → packet_map t ≡ some m
    → t ≡ command_name (report (frame no_options m)).command
unfolding packet_map report frame
packet_map_command t h = ground (
  arith,
  text_eq→≡ t (command_name stage_1_on),
  text_eq→≡ t (command_name stage_2_on),
  text_eq→≡ t (command_name stage_2_return),
  text_eq→≡ t (command_name system_reset),
)

-- Without overrides, parsing the bytes gives back the command for which they were built.
pub build_packet_command :
    (t : Text) {p : Packet}
    → build_packet t no_options ≡ some p
    → p.command ≡ command_name (report p.bytes).command
build_packet_command t h =
    let (m, e, eq) = build_packet_inv t no_options h in rw eq (packet_map_command _ e)

-- The four commands of the protocol.
abbrev pub IsSupported : Text → Type 0
IsSupported t =
    (t ≡ command_name stage_1_on)
    ⊎ ((t ≡ command_name stage_2_on)
        ⊎ ((t ≡ command_name stage_2_return) ⊎ (t ≡ command_name system_reset)))

packet_map-IsSupported : (t : Text) {m : Mapping} → packet_map t ≡ some m → IsSupported t
unfolding packet_map
packet_map-IsSupported t h = ground (
  arith,
  text_eq→≡ t (command_name stage_1_on),
  text_eq→≡ t (command_name stage_2_on),
  text_eq→≡ t (command_name stage_2_return),
  text_eq→≡ t (command_name system_reset),
)

supported-ne-none : (t : Text) → IsSupported t → packet_map t ≢ none
unfolding packet_map
supported-ne-none t (inl e) = rw e (λ h. cc)
supported-ne-none t (inr (inl e)) = rw e (λ h. cc)
supported-ne-none t (inr (inr (inl e))) = rw e (λ h. cc)
supported-ne-none t (inr (inr (inr e))) = rw e (λ h. cc)

build_packet-none :
    (t : Text) (o : Options) → build_packet t o ≡ none → packet_map (normalize_command t) ≡ none
unfolding build_packet
build_packet-none t o h = ground arith

-- A command is refused exactly when its normalised name is none of the four of the protocol.
pub build_packet-none_iff :
    (t : Text) (o : Options) → (build_packet t o ≡ none) ↔ (¬ IsSupported (normalize_command t))
unfolding build_packet
build_packet-none_iff t o = (
  λ h s. supported-ne-none _ s (build_packet-none t o h),
  λ h. elim (Option-cases (packet_map (normalize_command t))) [
    | inl e ↦ rw (e, build_packet)
    | inr (m, e) ↦ absurd (h (packet_map-IsSupported _ e))
  ],
)
