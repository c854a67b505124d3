-- ===== src/ControlBoard/Broadcast.antt =====
-- What of the control board's events reaches the dashboard.
use mathlib.Core.Path.{subst}
use lidar_dashboard.Prelude.{
  ℕ, ◌≤◌, ◌≡◌, refl, sym, ap, ◌∙◌, inl, inr, Bool, true, false, some, List, [], ◌∷◌, arith, ltb,
  length, take, length-take, Bool-cases,
}
use lidar_dashboard.Prelude.Tables.{any_by}
use lidar_dashboard.ControlBoard.Crc.{AllBytes}
use lidar_dashboard.ControlBoard.Parser.{report, numbers}
use lidar_dashboard.ControlBoard.Frames.{IsFrame, is_valid_iff, parse_packet-numbers}
use lidar_dashboard.ControlBoard.Ingest.{
  Payload, Event, Effect, show, is_invalid, diagnosis_of, summary_of, adapt_control_board_packet,
  apply_dashboard_effects, ingest_control_board, remember_event, max_recent_events,
}

abbrev pub is_shown : Effect → Bool
is_shown (show e) = true
is_shown _ = false

shown-valid :
    (e : Event)
    → any_by is_shown (apply_dashboard_effects e) ≡ true
    → e.raw_summary.packet_valid ≡ true
unfolding apply_dashboard_effects any_by
shown-valid e h = elim (Bool-cases (is_invalid e)) [
  | inl k ↦ (let j = rw (k, apply_dashboard_effects) at h in absurd (cc))
  | inr k ↦ ground arith
]

summary-valid :
    (p : Payload) (bytes : List ℕ)
    → AllBytes bytes
    → (summary_of p (diagnosis_of (some (numbers bytes)))).packet_valid ≡ (report bytes).is_valid
unfolding summary_of
summary-valid p bytes small =
    ap (λ d. (summary_of p (some d)).packet_valid) (parse_packet-numbers bytes small)

-- An event whose packet is an array of bytes is shown on the dashboard only if the bytes are a
-- frame of the protocol.
pub ingest_control_board-shown :
    (p : Payload) (bytes : List ℕ) (now : ℕ) (events : List Event)
    → AllBytes bytes
    → p.packet ≡ some (numbers bytes)
    → any_by is_shown (ingest_control_board p now events).1 ≡ true
    → IsFrame bytes
unfolding ingest_control_board adapt_control_board_packet
ingest_control_board-shown p bytes now events small same h = (is_valid_iff bytes).0 (
    sym (summary-valid p bytes small)
    ∙ subst (λ o. (summary_of p (diagnosis_of o)).packet_valid ≡ true) same
        (shown-valid (adapt_control_board_packet p now) h))

-- Where it holds at most 50 events, the list of recent events holds at most 50 after another one,
-- which is its first.
pub ingest_control_board-recent :
    (p : Payload) (now : ℕ) (events : List Event)
    → length events ≤ max_recent_events
    → (length (ingest_control_board p now events).0 ≤ max_recent_events)
      × (take 1 (ingest_control_board p now events).0 ≡ adapt_control_board_packet p now ∷ [])
unfolding ingest_control_board remember_event
ingest_control_board-recent p now events h =
    let e = adapt_control_board_packet p now in
    elim (Bool-cases (ltb max_recent_events (length (e ∷ events)))) [
      | inl k ↦ rw k (omega (arith, length-take max_recent_events (e ∷ events)), refl)
      | inr k ↦ rw k (ground arith, refl)
    ]
