-- ===== src/Signup/Maintenance.antt =====
-- `expirePendingSignupRequests` and `runSignupRequestMaintenance` of
-- dashboard/server/src/domains/signup-requests/signupRequests.service.js. A day is 24 hours, as it
-- is where the clock is never put forward or back; `updatedAt` is set by every update of a row.
use lidar_dashboard.Prelude.{
  ℕ, ◌+◌, ◌*◌, Bool, true, false, not, ◌&&◌, ◌||◌, Option, none, some, leb,
}
use lidar_dashboard.Prelude.Tables.{update_by}
use lidar_dashboard.Auth.Model.{Time}
use lidar_dashboard.Codes.Model.{
  pending, expired, signup_request_approved, signup_request_rejected, other_action, EventAction,
  Metadata, ReviewLog, SignupRequest, Server, same_status,
}
use lidar_dashboard.Codes.Calls.{clean_up, perform}

abbrev pub day : ℕ
day = 24 * 60 * 60 * 1000

abbrev pub signup_request_expiration_days : ℕ
signup_request_expiration_days = 30

abbrev pub signup_request_retention_days : ℕ
signup_request_retention_days = 90

abbrev pub has_expired : Time → SignupRequest → Bool
has_expired now r = same_status r.status pending && leb r.expires_at now

abbrev pub expire : Time → SignupRequest → SignupRequest
expire now r = record r { status = expired; password_hash = none; updated_at = now }

unfoldable pub expire_pending_signup_requests : Time → Server → Server
expire_pending_signup_requests now s = record s {
  signup_requests = update_by (has_expired now) (expire now) s.signup_requests;
}

-- `updatedAt: { lte: retentionCutoff }`.
abbrev pub is_old : Time → Time → Bool
is_old now t = leb (t + signup_request_retention_days * day) now

abbrev pub is_set_none {ℓ} : {A : Type ℓ} → Option A → Bool
is_set_none none = true
is_set_none (some a) = false

abbrev pub to_anonymize : Time → SignupRequest → Bool
to_anonymize now r =
    not (same_status r.status pending) && is_set_none r.anonymized_at && is_old now r.updated_at

abbrev pub anonymize : Time → SignupRequest → SignupRequest
anonymize now r = record r {
  user_id = none;
  name = none;
  email = none;
  phone_number = none;
  reject_reason = none;
  anonymized_at = some now;
  updated_at = now;
}

abbrev is_review : EventAction → Bool
is_review signup_request_approved = true
is_review signup_request_rejected = true
is_review other_action = false

abbrev has_personal_keys : Option Metadata → Bool
has_personal_keys none = false
has_personal_keys (some m) =
    not (is_set_none m.requested_user_id) || not (is_set_none m.reject_reason)

abbrev pub log_to_anonymize : Time → ReviewLog → Bool
log_to_anonymize now l =
    is_review l.action && is_old now l.created_at && has_personal_keys l.metadata

abbrev pub only_request_id : Option Metadata → Option Metadata
only_request_id none = none
only_request_id (some m) = some (record {
  signup_request_id = m.signup_request_id;
  requested_user_id = none;
  reject_reason = none;
})

abbrev pub anonymize_log : ReviewLog → ReviewLog
anonymize_log l = record l { metadata = only_request_id l.metadata }

unfoldable pub anonymize_signup_requests : Time → Server → Server
anonymize_signup_requests now s = record s {
  signup_requests = update_by (to_anonymize now) (anonymize now) s.signup_requests;
  event_logs = update_by (log_to_anonymize now) anonymize_log s.event_logs;
}

-- The counts that it returns are left out.
unfoldable pub run_signup_request_maintenance : Time → Server → Server
run_signup_request_maintenance now s =
    (perform (clean_up now)
      (anonymize_signup_requests now (expire_pending_signup_requests now s))).0
