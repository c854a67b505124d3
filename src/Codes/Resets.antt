-- ===== src/Codes/Resets.antt =====
-- The passwords that are set with a verification.
use lidar_dashboard.Prelude.{
  ℕ, ◌+◌, ◌≤◌, ◌≡◌, refl, sym, ◌∙◌, inl, inr, Bool, true, false, not, ◌&&◌, List, [], ◌∷◌, arith,
  ◌==◌, if◌then◌else◌, length, length-append, Bool-cases, Option-cases, get_elem?,
}
use lidar_dashboard.Prelude.Text.{Text}
use lidar_dashboard.Prelude.Tables.{All, All-append, count_by, sum_by}
use lidar_dashboard.Auth.Model.{Key, Time}
use lidar_dashboard.Accounts.Model.{Database, user_password_reset_via_email}
use lidar_dashboard.Accounts.Passwords.{Hashing, set_password}
use lidar_dashboard.Codes.Model.{Server}
use lidar_dashboard.Codes.Calls.{
  Call, clean_up, reserve, remove, claim, consume, confirm, can_confirm, perform,
}
use lidar_dashboard.Codes.Clients.{
  Client, finish, find_latest, find_verification, find_user, is_taken, write, compare, ResetTokens,
}
use lidar_dashboard.Codes.Run.{
  LogLine, called, compared, turn, World, Happening, arrive, go_on, elsewhere, happen, run, start,
}
use lidar_dashboard.Codes.Potential.{sum_by-delete_by-count_by, weight, perform-weight}
use lidar_dashboard.Codes.Counting.{line_of, run-counted}
use lidar_dashboard.Codes.Limits.{is_confirm_of, rows_left, rows_left-IsWeight, start-weight}

-- The audit log is as long after as before.
abbrev pub same_length : Database → Database → Bool
same_length before after = length before.user_audit_logs == length after.user_audit_logs

-- A line of a confirmation with the verification `i` that added to the audit log of the users.
abbrev pub reset_line : Key → LogLine → ℕ
reset_line i (called c n before after) =
    if is_confirm_of i c && not (same_length before after) then 1 else 0
reset_line i (compared j) = 0

abbrev pub resets : Key → List LogLine → ℕ
resets i log = sum_by (reset_line i) log

-- A confirmation that did not add to the audit log changed neither passwords nor anything else of
-- the users.
abbrev pub IsLoggedReset : Key → LogLine → Type 0
IsLoggedReset i (called c n before after) =
    is_confirm_of i c ≡ true → same_length before after ≡ true → before ≡ after
IsLoggedReset i (compared j) = Unit {0}

reset_line_le : (i : Key) (l : LogLine) → reset_line i l ≤ 1
reset_line_le i (called c n before after) = ground arith
reset_line_le i (compared j) = omega arith

is_one : (n : ℕ) → (n == 1) ≡ true → n ≡ 1
is_one n h = ground arith

same_length_refl : (d : Database) → same_length d d ≡ true
same_length_refl d = ground arith

-- A confirmation that finds its verification takes its row, and another one sets no password.
confirm-takes :
    (i j : Key) (email : Text) (user : Key) (hash : Text) (now : Time) (s : Server)
    → (j == i) ≡ true
    → (count_by (can_confirm j email) s.verifications == 1) ≡ true
    → weight i 1 (rows_left i) (perform (confirm j email user hash now) s).0 + 1
      ≤ weight i 1 (rows_left i) s
unfolding perform
confirm-takes i j email user hash now s h e =
    rw (e, perform)
      (omega (
        arith,
        is_one (count_by (can_confirm j email) s.verifications) e,
        sum_by-delete_by-count_by (rows_left i) (can_confirm j email) s.verifications
            (λ v k. ground arith),
      ))

confirm-refused :
    (i j : Key) (email : Text) (user : Key) (hash : Text) (now : Time) (s : Server)
    → (count_by (can_confirm j email) s.verifications == 1) ≡ false
    → reset_line i (line_of (confirm j email user hash now) s) ≡ 0
unfolding perform
confirm-refused i j email user hash now s e =
    rw (e, perform, same_length_refl s.database) (ground arith)

confirm-reset :
    (i j : Key) (email : Text) (user : Key) (hash : Text) (now : Time) (s : Server)
    → (j == i) ≡ true
    → weight i 1 (rows_left i) (perform (confirm j email user hash now) s).0
        + reset_line i (line_of (confirm j email user hash now) s)
      ≤ weight i 1 (rows_left i) s
confirm-reset i j email user hash now s h =
    let c = confirm j email user hash now in
    let most = reset_line_le i (line_of c s) in
    elim (Bool-cases (count_by (can_confirm j email) s.verifications == 1)) [
      | inl e ↦
          (let taken = confirm-takes i j email user hash now s h e in omega (arith, most, taken))
      | inr e ↦
          let none_set = confirm-refused i j email user hash now s e in
          omega (arith, none_set, perform-weight i 1 (rows_left i) (rows_left-IsWeight i) c s)
    ]

call-reset :
    (i : Key) (c : Call) (s : Server)
    → weight i 1 (rows_left i) (perform c s).0 + reset_line i (line_of c s)
      ≤ weight i 1 (rows_left i) s
call-reset i c s = elim (Bool-cases (is_confirm_of i c)) [
  | inr e ↦ rw e (omega (arith, perform-weight i 1 (rows_left i) (rows_left-IsWeight i) c s))
  | inl e ↦ by_call c e
]
  where
    by_call :
        (c : Call)
        → is_confirm_of i c ≡ true
        → weight i 1 (rows_left i) (perform c s).0 + reset_line i (line_of c s)
          ≤ weight i 1 (rows_left i) s
    by_call (confirm j email user hash now) h = confirm-reset i j email user hash now s h
    by_call (clean_up now) h = absurd (cc)
    by_call (reserve email purpose hash now expires_at) h = absurd (cc)
    by_call (remove j) h = absurd (cc)
    by_call (claim j) h = absurd (cc)
    by_call (consume j now) h = absurd (cc)

one_longer : (a b : ℕ) → b ≡ a + 1 → (a == b) ≡ false
one_longer a b h = ground arith

set_password-longer :
    (d : Database) (user : Key) (hash : Text) (now : Time)
    → same_length d (set_password d user hash user_password_reset_via_email user now) ≡ false
unfolding set_password
set_password-longer d user hash now =
    one_longer (length d.user_audit_logs) _ (length-append d.user_audit_logs _)

perform-IsLoggedReset : (i : Key) (c : Call) (s : Server) → IsLoggedReset i (line_of c s)
unfolding perform
perform-IsLoggedReset i (confirm j email user hash now) s h =
    elim (Bool-cases (count_by (can_confirm j email) s.verifications == 1)) [
      | inl e ↦
          rw (e, perform)
            (λ k.
              let apart = set_password-longer s.database user hash now in
              let grown = sym k ∙ apart in absurd (cc))
      | inr e ↦ rw (e, perform) (λ k. refl)
    ]
perform-IsLoggedReset i (clean_up now) s h = absurd (cc)
perform-IsLoggedReset i (reserve email purpose hash now expires_at) s h = absurd (cc)
perform-IsLoggedReset i (remove j) s h = absurd (cc)
perform-IsLoggedReset i (claim j) s h = absurd (cc)
perform-IsLoggedReset i (consume j now) s h = absurd (cc)

turn-IsLoggedReset :
    (i : Key) (h : Hashing) (c : Client) (s : Server) → All (IsLoggedReset i) (turn h c s).2
unfolding turn
turn-IsLoggedReset i h (finish r) s = tt
turn-IsLoggedReset i h (find_latest email purpose k) s = tt
turn-IsLoggedReset i h (find_verification j k) s = tt
turn-IsLoggedReset i h (find_user email k) s = tt
turn-IsLoggedReset i h (is_taken email now k) s = tt
turn-IsLoggedReset i h (compare j code hash k) s = (tt, tt)
turn-IsLoggedReset i h (write c k) s = (perform-IsLoggedReset i c s, tt)

run-IsLoggedReset :
    (h : Hashing) (t : ResetTokens) (i : Key) (x : World) (es : List Happening)
    → All (IsLoggedReset i) x.log
    → All (IsLoggedReset i) (run h t x es).log
unfolding run happen
run-IsLoggedReset h t i x [] all = all
run-IsLoggedReset h t i x (arrive a ∷ es) all =
    run-IsLoggedReset h t i (happen h t x (arrive a)) es all
run-IsLoggedReset h t i x (elsewhere database requests used ∷ es) all =
    run-IsLoggedReset h t i (happen h t x (elsewhere database requests used)) es all
run-IsLoggedReset h t i x (go_on place ∷ es) all =
    run-IsLoggedReset h t i (happen h t x (go_on place)) es
      (elim (Option-cases (get_elem? x.clients place)) [
        | inl e ↦ rw (e, happen) all
        | inr (c, e) ↦
            rw (e, happen)
              (All-append (IsLoggedReset i) x.log (turn h c x.server).2 all
                (turn-IsLoggedReset i h c x.server))
      ])

-- Over the whole life of the server, at most one of the confirmations with a verification, however
-- often and by whomever its token is used, sets a password, which adds a line to the audit log, and
-- each other one leaves the users, their tokens and the log as they are.
pub run-confirm :
    (h : Hashing) (t : ResetTokens) (i : Key) (database : Database) (es : List Happening)
    → (resets i (run h t (start database) es).log ≤ 1)
      × All (IsLoggedReset i) (run h t (start database) es).log
unfolding sum_by
run-confirm h t i database es = (
  omega (
    arith,
    run-counted h t i 1 (rows_left i) (reset_line i) (rows_left-IsWeight i) (λ j. refl)
        (call-reset i) (start database) es,
    start-weight i 1 (rows_left i) database,
  ),
  run-IsLoggedReset h t i (start database) es tt,
)
