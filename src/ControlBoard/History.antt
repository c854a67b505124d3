-- ===== src/ControlBoard/History.antt =====
-- The history of the commands to the control board.
use mathlib.Core.Path.{subst}
use lidar_dashboard.Prelude.{
  ℕ, zero, suc, ◌≤◌, ◌≡◌, refl, sym, inl, inr, Bool, true, false, not, ◌&&◌, ◌||◌, Option, none,
  some, List, [], ◌∷◌, arith, ltb, ◌==◌, if◌then◌else◌, length, take, length-take, Bool-cases,
  Option-cases,
}
use lidar_dashboard.Prelude.Tables.{find_by, All}
use lidar_dashboard.ControlBoard.Parser.{Packet, build_packet}
use lidar_dashboard.ControlBoard.Frames.{IsFrame}
use lidar_dashboard.ControlBoard.Build.{IsPlain, build_packet_valid}
use lidar_dashboard.ControlBoard.Service.{
  Command, Request, Settings, Stamps, Target, TcpOutcome, resolved, rejected, SendResult, answered,
  tcp_failed, max_command_history, remember_command, get_command, is_blank, target, base_command,
  sent_command, send_answer, Client, dispatch, send_control_board_command,
}

-- At most 50 commands, each with a frame of the protocol.
pub record Kept (history : List Command) : Type 0 where
  pub few : length history ≤ max_command_history
  pub framed : All (λ c. IsFrame c.packet.bytes) history

All-take : {A : Type 0} (P : A → Type 0) (n : ℕ) (xs : List A) → All P xs → All P (take n xs)
All-take P zero xs h = tt
All-take P (suc n) [] h = tt
All-take P (suc n) (x ∷ xs) h = (h.0, All-take P n xs h.1)

remember_command-Kept :
    (c : Command) (history : List Command)
    → IsFrame c.packet.bytes
    → Kept history
    → Kept (remember_command c history)
unfolding remember_command
remember_command-Kept c history frame h =
    elim (Bool-cases (ltb max_command_history (length (c ∷ history)))) [
      | inl e ↦ rw e (record {
        few = omega (arith, length-take max_command_history (c ∷ history));
        framed =
            All-take (λ (x : Command). IsFrame x.packet.bytes) max_command_history (c ∷ history)
              (frame, h.framed);
      })
      | inr e ↦ rw e (record { few = ground arith; framed = (frame, h.framed) })
    ]

sent_command-packet :
    (c : Command) (s : Stamps) (o : TcpOutcome) → (sent_command c s o).packet ≡ c.packet
unfolding sent_command
sent_command-packet c s (resolved got timed_out buffer) = refl
sent_command-packet c s (rejected message) = refl

dispatch-Kept :
    (send : Client) (r : Request) (s : Stamps) (t : Target) (p : Packet) (history : List Command)
    → IsFrame p.bytes
    → Kept history
    → Kept (dispatch send r s t p history).0
unfolding dispatch base_command
dispatch-Kept send r s t p history frame h = elim (Bool-cases r.dry_run) [
  | inl e ↦ rw (e, dispatch) (remember_command-Kept _ history frame h)
  | inr e ↦
      rw (e, dispatch)
        (remember_command-Kept _ history
          (subst (λ (q : Packet). IsFrame q.bytes) (sym (sent_command-packet _ s (send t p.bytes)))
            frame)
          h)
]

-- Whatever is asked and whatever comes of sending it, the history keeps at most 50 commands, and
-- each of them has a frame of the protocol, where overrides are bytes and leave the device alone.
pub send_control_board_command-Kept :
    (settings : Settings) (send : Client) (r : Request) (s : Stamps) (history : List Command)
    → IsPlain r.options
    → Kept history
    → Kept (send_control_board_command settings send r s history).0
unfolding send_control_board_command
send_control_board_command-Kept settings send r s history plain h =
    elim (Bool-cases (is_blank r.command_type)) [
      | inl e ↦ rw (e, send_control_board_command) h
      | inr e ↦
          elim (Bool-cases (
            not r.dry_run
            && (is_blank (target settings r).host || (target settings r).port == 0))) [
              | inl k ↦ rw (e, k, send_control_board_command) h
              | inr k ↦ elim (Option-cases (build_packet r.command_type r.options)) [
                | inl m ↦ rw (e, k, m, send_control_board_command) h
                | inr (p, m) ↦
                    rw (e, k, m, send_control_board_command)
                      (dispatch-Kept send r s (target settings r) p history
                        (build_packet_valid r.command_type r.options {p = p} plain m).0 h)
              ]
            ]
    ]

-- The command that an answer carries.
abbrev pub command_of : SendResult → Option Command
command_of (answered c) = some c
command_of (tcp_failed c) = some c
command_of _ = none

get_command-remember_command :
    (c : Command) (history : List Command)
    → get_command c.command_id (remember_command c history) ≡ some c
unfolding get_command remember_command find_by
get_command-remember_command c history =
    elim (Bool-cases (ltb max_command_history (length (c ∷ history)))) [
      | inl e ↦ rw e (ground arith)
      | inr e ↦ rw e (ground arith)
    ]

command_of-send : (o : TcpOutcome) (x c : Command) → command_of (send_answer o x) ≡ some c → x ≡ c
command_of-send (resolved got timed_out buffer) x c h = cc
command_of-send (rejected message) x c h = cc

remembered :
    (x c : Command) (history : List Command)
    → x ≡ c
    → get_command c.command_id (remember_command x history) ≡ some c
remembered x c history same =
    subst (λ y. get_command y.command_id (remember_command x history) ≡ some y) same
      (get_command-remember_command x history)

if-either {ℓ κ} :
    {A : Type ℓ} (P : A → Type κ) (b : Bool) (x y : A) → P x → P y → P (if b then x else y)
if-either P true x y h k = h
if-either P false x y h k = k

dispatch-found :
    (send : Client) (r : Request) (s : Stamps) (t : Target) (p : Packet) (history : List Command)
    (c : Command)
    → command_of (dispatch send r s t p history).1 ≡ some c
    → get_command c.command_id (dispatch send r s t p history).0 ≡ some c
unfolding dispatch
dispatch-found send r s t p history c =
    let base = base_command r s t p in
    let sent = sent_command base s (send t p.bytes) in
    if-either
      (λ (o : List Command × SendResult).
        command_of o.1 ≡ some c → get_command c.command_id o.0 ≡ some c)
      r.dry_run (remember_command base history, answered base)
      (remember_command sent history, send_answer (send t p.bytes) sent)
      (λ h. remembered base c history (cc))
      (λ h. remembered sent c history (command_of-send (send t p.bytes) sent c h))

-- Every command that is answered, one that failed included, is found by its id right afterwards.
pub get_command-send_control_board_command :
    (settings : Settings) (send : Client) (r : Request) (s : Stamps) (history : List Command)
    (c : Command)
    → command_of (send_control_board_command settings send r s history).1 ≡ some c
    → get_command c.command_id (send_control_board_command settings send r s history).0 ≡ some c
unfolding send_control_board_command
get_command-send_control_board_command settings send r s history c =
    elim (Bool-cases (is_blank r.command_type)) [
      | inl e ↦ rw (e, send_control_board_command) (λ h. absurd (cc))
      | inr e ↦
          elim (Bool-cases (
            not r.dry_run
            && (is_blank (target settings r).host || (target settings r).port == 0))) [
              | inl k ↦ rw (e, k, send_control_board_command) (λ h. absurd (cc))
              | inr k ↦ elim (Option-cases (build_packet r.command_type r.options)) [
                | inl m ↦ rw (e, k, m, send_control_board_command) (λ h. absurd (cc))
                | inr (p, m) ↦
                    rw (e, k, m, send_control_board_command)
                      (dispatch-found send r s (target settings r) p history c)
              ]
            ]
    ]
