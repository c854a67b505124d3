-- ===== src/Codes/Calls.antt =====
-- The writes that the codes make to the database, each of them one statement or one transaction
-- that nothing else comes between: those of dashboard/server/src/domains/auth/auth.service.js and
-- of domains/signup-requests/signupRequests.service.js, and utils/email-verification-maintenance.js.
use lidar_dashboard.Prelude.{
  ℕ, suc, ◌+◌, ◌-◌, ◌*◌, Bool, false, ◌&&◌, Option, none, some, List, [], ◌∷◌, ◌++◌, ltb, leb, ◌==◌,
  if◌then◌else◌,
}
use lidar_dashboard.Prelude.Text.{Text, text_eq}
use lidar_dashboard.Prelude.Tables.{update_by, count_by, delete_by}
use lidar_dashboard.Auth.Model.{Key, Time}
use lidar_dashboard.Auth.Sessions.{is_live}
use lidar_dashboard.Accounts.Model.{user_password_reset_via_email}
use lidar_dashboard.Accounts.Passwords.{set_password}
use lidar_dashboard.Codes.Model.{Purpose, EmailVerification, Server, sent_to, latest_by}

abbrev pub code_max_attempts : ℕ
code_max_attempts = 5

abbrev pub code_resend_cooldown_seconds : ℕ
code_resend_cooldown_seconds = 60

abbrev pub email_verified_window_minutes : ℕ
email_verified_window_minutes = 30

pub data Call : Type 0 where
  clean_up : Time → Call
  reserve : (email : Text) → Purpose → (code_hash : Text) → (now expires_at : Time) → Call
  remove claim : Key → Call
  consume : Key → Time → Call
  confirm : (verification : Key) → (email : Text) → (user : Key) → (hash : Text) → Time → Call

abbrev pub is_verification : Key → EmailVerification → Bool
is_verification i v = v.id == i

-- `cleanupExpiredEmailVerifications`: a code that was not used by its end, or was 30 minutes ago.
abbrev pub is_stale_code : Time → EmailVerification → Bool
is_stale_code now v = elim v.consumed_at [
  | none ↦ leb v.expires_at now
  | some t ↦ leb (t + email_verified_window_minutes * 60 * 1000) now
]

-- The `where` of the update that takes an attempt, and of the one that takes the code.
abbrev pub can_claim : Key → EmailVerification → Bool
can_claim i v =
    is_verification i v && is_live v.consumed_at && leb v.attempts (code_max_attempts - 1)

abbrev pub can_consume : Key → EmailVerification → Bool
can_consume i v = is_verification i v && is_live v.consumed_at

abbrev pub attempted : EmailVerification → EmailVerification
attempted v = record v { attempts = suc v.attempts }

abbrev pub consumed : Time → EmailVerification → EmailVerification
consumed now v = record v { consumed_at = some now }

abbrev pub can_confirm : Key → Text → EmailVerification → Bool
can_confirm i email v = is_verification i v && text_eq v.email email

abbrev pub new_verification : Key → Text → Purpose → Text → Time → Time → EmailVerification
new_verification i email purpose hash now expires_at = record {
  id = i;
  email = email;
  purpose = purpose;
  code_hash = hash;
  expires_at = expires_at;
  attempts = 0;
  consumed_at = none;
  created_at = now;
}

abbrev pub is_cooling : Time → Option EmailVerification → Bool
is_cooling now none = false
is_cooling now (some v) = ltb now (v.created_at + code_resend_cooldown_seconds * 1000)

abbrev with_verifications : Server → List EmailVerification → Server
with_verifications s vs = record s { verifications = vs }

-- What a call leaves and gives: the count of the rows, or the id of a new row.
unfoldable pub perform : Call → Server → Server × Option ℕ
perform (clean_up now) s = (
  with_verifications s (delete_by (is_stale_code now) s.verifications),
  some (count_by (is_stale_code now) s.verifications),
)
perform (reserve email purpose hash now expires_at) s =
    if is_cooling now (latest_by (sent_to email purpose) s.verifications) then (s, none) else (
      record s {
        verifications =
            s.verifications ++ new_verification s.next_id email purpose hash now expires_at ∷ [];
        next_id = suc s.next_id;
      },
      some s.next_id,
    )
perform (remove i) s = (
  with_verifications s (delete_by (is_verification i) s.verifications),
  some (count_by (is_verification i) s.verifications),
)
perform (claim i) s = (
  with_verifications s (update_by (can_claim i) attempted s.verifications),
  some (count_by (can_claim i) s.verifications),
)
perform (consume i now) s = (
  with_verifications s (update_by (can_consume i) (consumed now) s.verifications),
  some (count_by (can_consume i) s.verifications),
)
perform (confirm i email user hash now) s =
    let count = count_by (can_confirm i email) s.verifications in
    if count == 1
    then (
      record s {
        verifications = delete_by (can_confirm i email) s.verifications;
        database = set_password s.database user hash user_password_reset_via_email user now;
      },
      some count,
    )
    else (s, some count)
