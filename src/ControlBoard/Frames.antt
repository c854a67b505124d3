-- ===== src/ControlBoard/Frames.antt =====
-- Which packets `parseControlBoardPacket` accepts, and that the packets that
-- `buildControlBoardPacket` makes are among them.
use lidar_dashboard.Prelude.{
  ℕ, zero, suc, ◌<◌, ◌≡◌, refl, ap, ◌≢◌, ◌↔◌, inl, inr, true, false, some, List, [], ◌∷◌, arith,
  length, get_elem?, set, Bool-cases,
}
use lidar_dashboard.ControlBoard.Crc.{AllBytes, calculate_crc, calculate_crc_one_byte}
use lidar_dashboard.ControlBoard.Packet.{all_some, element_byte, normalize_packet, ok}
use lidar_dashboard.ControlBoard.Protocol.{device_id}
use lidar_dashboard.ControlBoard.Parser.{read, report, parse_packet, numbers}
use lidar_dashboard.ControlBoard.Protocol.{stx, etx, eof}

-- A frame of the protocol: start byte, device, five free bytes, the CRC of bytes 1 to 6, and the
-- two end bytes.
abbrev pub IsFrame : List ℕ → Type 0
IsFrame bytes =
    (type mode status select reserved : ℕ) × (bytes
      ≡ stx
        ∷ device_id
        ∷ type
        ∷ mode
        ∷ status
        ∷ select
        ∷ reserved
        ∷ calculate_crc (device_id ∷ type ∷ mode ∷ status ∷ select ∷ reserved ∷ [])
        ∷ etx
        ∷ eof
        ∷ [])

valid_length : (bytes : List ℕ) → (report bytes).is_valid ≡ true → length bytes ≡ 10
unfolding report
valid_length bytes h = ground arith

IsFrame-of_valid :
    (bytes : List ℕ) → length bytes ≡ 10 → (report bytes).is_valid ≡ true → IsFrame bytes
unfolding report
IsFrame-of_valid (a ∷ b ∷ c ∷ d ∷ e ∷ f ∷ g ∷ h ∷ i ∷ j ∷ []) l v = (c, d, e, f, g, ground arith)
IsFrame-of_valid _ l v = absurd (omega arith)

valid_of_IsFrame : (bytes : List ℕ) → IsFrame bytes → (report bytes).is_valid ≡ true
unfolding report
valid_of_IsFrame bytes (c, d, e, f, g, eq) = rw eq (ground arith)

-- A packet of bytes is valid exactly when it is a frame of the protocol, CRC included.
pub is_valid_iff : (bytes : List ℕ) → ((report bytes).is_valid ≡ true) ↔ IsFrame bytes
is_valid_iff bytes = (λ v. IsFrame-of_valid bytes (valid_length bytes v) v, valid_of_IsFrame bytes)

-- The frame with one byte put in place of another.
abbrev framed : ℕ → ℕ → ℕ → ℕ → ℕ → List ℕ
framed t m s l r =
    stx
    ∷ device_id
    ∷ t
    ∷ m
    ∷ s
    ∷ l
    ∷ r
    ∷ calculate_crc (device_id ∷ t ∷ m ∷ s ∷ l ∷ r ∷ [])
    ∷ etx
    ∷ eof
    ∷ []

module _ (t m s l r v : ℕ) (byte : v < 256) (area : AllBytes (t ∷ m ∷ s ∷ l ∷ r ∷ [])) where
  written :
      (i : ℕ)
      → i < 10
      → (report (set (framed t m s l r) i v)).is_valid ≡ true
      → get_elem? (framed t m s l r) i ≡ some v
  unfolding report
  written zero h e = ground arith
  written (suc zero) h e = ground arith
  written (suc (suc zero)) h e = ap some (
      calculate_crc_one_byte (device_id ∷ []) (m ∷ s ∷ l ∷ r ∷ []) t v (omega arith) (omega arith)
        (omega arith) byte (ground arith))
  written (suc (suc (suc zero))) h e = ap some (
      calculate_crc_one_byte (device_id ∷ t ∷ []) (s ∷ l ∷ r ∷ []) m v (omega arith) (omega arith)
        (omega arith) byte (ground arith))
  written (suc (suc (suc (suc zero)))) h e = ap some (
      calculate_crc_one_byte (device_id ∷ t ∷ m ∷ []) (l ∷ r ∷ []) s v (omega arith) (omega arith)
        (omega arith) byte (ground arith))
  written (suc (suc (suc (suc (suc zero))))) h e = ap some (
      calculate_crc_one_byte (device_id ∷ t ∷ m ∷ s ∷ []) (r ∷ []) l v (omega arith) (omega arith)
        (omega arith) byte (ground arith))
  written (suc (suc (suc (suc (suc (suc zero)))))) h e = ap some (
      calculate_crc_one_byte (device_id ∷ t ∷ m ∷ s ∷ l ∷ []) [] r v (omega arith) (omega arith)
        (omega arith) byte (ground arith))
  written (suc (suc (suc (suc (suc (suc (suc zero))))))) h e = ground arith
  written (suc (suc (suc (suc (suc (suc (suc (suc zero)))))))) h e = ground arith
  written (suc (suc (suc (suc (suc (suc (suc (suc (suc zero))))))))) h e = ground arith
  written (suc (suc (suc (suc (suc (suc (suc (suc (suc (suc i)))))))))) h e = absurd (omega arith)

-- One wrong byte is always found: where a valid packet has one of its ten bytes replaced by
-- another byte, the result is not valid.
pub report-set_invalid :
    (bytes : List ℕ) (i v : ℕ)
    → AllBytes bytes
    → v < 256
    → i < 10
    → (report bytes).is_valid ≡ true
    → get_elem? bytes i ≢ some v
    → (report (set bytes i v)).is_valid ≡ false
report-set_invalid bytes i v area byte h fine differs =
    elim (Bool-cases (report (set bytes i v)).is_valid) [
      | inr e ↦ e
      | inl e ↦
          let (t, m, s, l, r, eq) = IsFrame-of_valid bytes (valid_length bytes fine) fine in
          absurd (differs (rw eq (written t m s l r v byte (data_of area eq) i h (rw eq at e))))
    ]
  where
    data_of :
        {t m s l r : ℕ}
        → AllBytes bytes
        → bytes ≡ framed t m s l r
        → AllBytes (t ∷ m ∷ s ∷ l ∷ r ∷ [])
    data_of k eq = let k' = rw eq at k in omega arith

all_some_numbers : (bytes : List ℕ) → AllBytes bytes → normalize_packet (numbers bytes) ≡ ok bytes
unfolding normalize_packet all_some element_byte
all_some_numbers [] k = refl
all_some_numbers (b ∷ bs) k = ground (arith, all_some_numbers bs k.1)

-- An array of bytes is read as those bytes.
pub parse_packet-numbers :
    (bytes : List ℕ) → AllBytes bytes → parse_packet (numbers bytes) ≡ read (report bytes)
unfolding parse_packet
parse_packet-numbers bytes k = rw (all_some_numbers bytes k)
