-- ===== src/Signup/Review.antt =====
-- `approveSignupRequest` and `rejectSignupRequest` of
-- dashboard/server/src/domains/signup-requests/signupRequests.service.js. The mail about an approval
-- is left out: it changes nothing.
use lidar_dashboard.Prelude.{
  ℕ, suc, Bool, true, false, not, ◌&&◌, ◌||◌, Option, none, some, [], ◌∷◌, ◌++◌, ltb, ◌==◌, length,
  if◌then◌else◌,
}
use lidar_dashboard.Prelude.Text.{Text, trim}
use lidar_dashboard.Prelude.Tables.{find_by, update_by, count_by, any_by}
use lidar_dashboard.Auth.Model.{Key, Time, User}
use lidar_dashboard.Auth.Sessions.{is_blank}
use lidar_dashboard.Accounts.Reply.{Reply, ok, http_error}
use lidar_dashboard.Accounts.Fields.{manager}
use lidar_dashboard.Accounts.Users.{clash}
use lidar_dashboard.Codes.Model.{
  SignupStatus, pending, approved, rejected, EventAction, signup_request_approved,
  signup_request_rejected, ReviewLog, SignupRequest, Server, same_status, is_pending,
}
use lidar_dashboard.Signup.Maintenance.{run_signup_request_maintenance}
use lidar_dashboard.Signup.Requests.{serialize_signup_request}

abbrev pub max_reject_reason_length : ℕ
max_reject_reason_length = 500

abbrev pub is_request : Key → SignupRequest → Bool
is_request id r = r.id == id

abbrev pub can_review : Key → Time → SignupRequest → Bool
can_review id now r = is_request id r && is_pending now r

-- The row after a review.
abbrev pub reviewed : SignupStatus → Key → Option Text → Time → SignupRequest → SignupRequest
reviewed status reviewer reason now r = record r {
  status = status;
  reviewed_by_user_id = some reviewer;
  reviewed_at = some now;
  reject_reason = reason;
  password_hash = none;
  updated_at = now;
}

abbrev pub review_log : Key → EventAction → Key → Time → ReviewLog
review_log reviewer action id now = record {
  user_id = reviewer;
  action = action;
  metadata =
      some (record { signup_request_id = some id; requested_user_id = none; reject_reason = none });
  created_at = now;
}

-- The claim of a pending request, with the line of the log.
abbrev pub claimed_request :
    Key → SignupStatus → EventAction → (reviewer : Key) → Option Text → Time → Server → Server
claimed_request id status action reviewer reason now s = record s {
  signup_requests =
      update_by (can_review id now) (reviewed status reviewer reason now) s.signup_requests;
  event_logs = s.event_logs ++ review_log reviewer action id now ∷ [];
}

-- The account that a request stands for, where all its columns are set.
unfoldable pub requested_user : Key → SignupRequest → Option User
requested_user new_id r = elim r.user_id [
  | none ↦ none
  | some user_id ↦ elim r.name [
    | none ↦ none
    | some name ↦ elim r.password_hash [
      | none ↦ none
      | some hash ↦ elim r.email [
        | none ↦ none
        | some email ↦ elim r.phone_number [
          | none ↦ none
          | some phone ↦
              if is_blank user_id
                || is_blank name
                || is_blank hash
                || is_blank email
                || is_blank phone
              then none
              else some (record {
                id = new_id;
                user_id = user_id;
                name = name;
                role = manager;
                password_hash = hash;
                is_active = true;
                session_version = 0;
                email = some email;
                phone_number = some phone;
                last_login_at = none;
              })
        ]
      ]
    ]
  ]
]

abbrev pub with_user : Server → User → Server
with_user s u = record s {
  database = record s.database {
    tables = record s.database.tables { users = s.database.tables.users ++ u ∷ [] };
  };
  next_id = suc s.next_id;
}

-- The transaction of an approval.
unfoldable pub approve_request :
    Key → (reviewer : Key) → Time → Server → Server × Reply SignupRequest
approve_request id reviewer now s = elim (find_by (is_request id) s.signup_requests) [
  | none ↦ (s, http_error 404)
  | some r ↦
      if not (same_status r.status pending)
      then (s, http_error 409)
      else elim (requested_user s.next_id r) [
        | none ↦ (s, http_error 409)
        | some u ↦
            if not (count_by (can_review id now) s.signup_requests == 1)
            then (s, http_error 409)
            else if any_by (clash u) s.database.tables.users
            then (s, http_error 409)
            else (
              with_user (claimed_request id approved signup_request_approved reviewer none now s) u,
              ok (serialize_signup_request (reviewed approved reviewer none now r)),
            )
      ]
]

unfoldable pub approve_signup_request :
    Key → (reviewer : Key) → Time → Server → Server × Reply SignupRequest
approve_signup_request id reviewer now s =
    approve_request id reviewer now (run_signup_request_maintenance now s)

abbrev pub given_reason : Option Text → Option Text
given_reason none = none
given_reason (some t) = if is_blank (trim t) then none else some (trim t)

abbrev pub is_too_long : Option Text → Bool
is_too_long none = false
is_too_long (some t) = ltb max_reject_reason_length (length t)

-- The transaction of a rejection.
unfoldable pub reject_request :
    Key → (reviewer : Key) → Option Text → Time → Server → Server × Reply SignupRequest
reject_request id reviewer reason now s = elim (find_by (is_request id) s.signup_requests) [
  | none ↦ (s, http_error 404)
  | some r ↦
      if not (same_status r.status pending)
      then (s, http_error 409)
      else if not (count_by (can_review id now) s.signup_requests == 1)
      then (s, http_error 409)
      else (
        claimed_request id rejected signup_request_rejected reviewer reason now s,
        ok (serialize_signup_request (reviewed rejected reviewer reason now r)),
      )
]

unfoldable pub reject_signup_request :
    Key
    → (reviewer : Key) → (reject_reason : Option Text) → Time
    → Server
    → Server × Reply SignupRequest
reject_signup_request id reviewer reason now s =
    let s_1 = run_signup_request_maintenance now s in
    if is_too_long (given_reason reason)
    then (s_1, http_error 400)
    else reject_request id reviewer (given_reason reason) now s_1
