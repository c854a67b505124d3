-- ===== src/Signup/Requests.antt =====
-- `checkUserIdAvailability` and `createSignupRequest` of
-- dashboard/server/src/domains/signup-requests/signupRequests.service.js. A field is `none` where
-- the body has no string for it.
use lidar_dashboard.Prelude.{
  ℕ, suc, ◌+◌, ◌*◌, Bool, false, not, ◌&&◌, ◌||◌, Option, none, some, [], ◌∷◌, ◌++◌, ltb, ◌==◌,
  length, if◌then◌else◌,
}
use lidar_dashboard.Prelude.Text.{Text, text_eq, trim}
use lidar_dashboard.Prelude.Tables.{any_by, count_by, delete_by}
use lidar_dashboard.Auth.Model.{Key, Time}
use lidar_dashboard.Auth.Sessions.{is_blank, is_live}
use lidar_dashboard.Accounts.Policy.{
  is_valid_user_id, is_valid_password, is_email, normalize_email, normalize_phone_number,
  is_valid_phone_number,
}
use lidar_dashboard.Accounts.Reply.{Reply, ok, http_error, ◌>>=◌, ◌>>◌, throw_if}
use lidar_dashboard.Accounts.Fields.{is_blank_field, field_text, manager}
use lidar_dashboard.Accounts.Users.{same_text}
use lidar_dashboard.Codes.Model.{
  signup, pending, EmailVerification, SignupRequest, Server, sent_to, latest_by, is_pending,
}
use lidar_dashboard.Codes.Calls.{is_verification, email_verified_window_minutes}
use lidar_dashboard.Codes.Run.{email_taken}
use lidar_dashboard.Signup.Maintenance.{
  day, signup_request_expiration_days, expire_pending_signup_requests,
}

pub record SignupFields : Type 0 where
  pub user_id : Option Text
  pub name : Option Text
  pub password : Option Text
  pub email : Option Text
  pub phone_number : Option Text

abbrev pub max_name_length : ℕ
max_name_length = 50

abbrev pub max_email_length : ℕ
max_email_length = 254

unfoldable pub valid_user_id : Text → Reply Text
valid_user_id user_id = throw_if (not (is_valid_user_id (trim user_id))) 400 >> ok (trim user_id)

unfoldable pub valid_name : Text → Reply Text
valid_name name =
    throw_if (is_blank (trim name) || ltb max_name_length (length (trim name))) 400
    >> ok (trim name)

unfoldable pub valid_signup_email : Text → Reply Text
valid_signup_email email =
    throw_if
      (ltb max_email_length (length (normalize_email email))
        || not (is_email (normalize_email email)))
      400
    >> ok (normalize_email email)

unfoldable pub valid_phone : Text → Reply Text
valid_phone phone_number =
    throw_if (not (is_valid_phone_number (normalize_phone_number phone_number))) 400
    >> ok (normalize_phone_number phone_number)

-- What is shown of a request: all but the password's hash. The name of its reviewer is left out.
abbrev pub serialize_signup_request : SignupRequest → SignupRequest
serialize_signup_request r = record r { password_hash = none }

-- A user has it, or a pending request.
unfoldable pub user_id_taken : Text → Time → Server → Bool
user_id_taken user_id now s =
    any_by (λ u. text_eq u.user_id user_id) s.database.tables.users
    || any_by (λ r. is_pending now r && same_text r.user_id (some user_id)) s.signup_requests

unfoldable pub phone_taken : Text → Time → Server → Bool
phone_taken phone now s =
    any_by (λ u. same_text u.phone_number (some phone)) s.database.tables.users
    || any_by (λ r. is_pending now r && same_text r.phone_number (some phone)) s.signup_requests

unfoldable pub check_user_id_availability : Text → Time → Server → Reply (Text × Bool)
check_user_id_availability user_id now s =
    valid_user_id user_id >>= λ id. ok (id, not (user_id_taken id now s))

-- The checks before the transaction, with the values that it stores.
unfoldable pub signup_values :
    (Text → Text) → SignupFields → Time → Server → Reply (Text × Text × Text × Text × Text)
signup_values hash_password f now s = do
  throw_if
      (is_blank_field f.user_id
        || is_blank_field f.name
        || is_blank_field f.password
        || is_blank_field f.email
        || is_blank_field f.phone_number)
      400
  throw_if (not (is_valid_password (field_text f.password))) 400
  user_id ← valid_user_id (field_text f.user_id)
  throw_if (user_id_taken user_id now s) 409
  name ← valid_name (field_text f.name)
  email ← valid_signup_email (field_text f.email)
  throw_if (email_taken email now s) 409
  phone ← valid_phone (field_text f.phone_number)
  throw_if (phone_taken phone now s) 409
  ok (user_id, name, hash_password (field_text f.password), email, phone)

abbrev pub new_request : Key → Text × Text × Text × Text × Text → Time → SignupRequest
new_request id (user_id, name, hash, email, phone) now = record {
  id = id;
  user_id = some user_id;
  name = some name;
  password_hash = some hash;
  email = some email;
  phone_number = some phone;
  requested_role = manager;
  status = pending;
  expires_at = now + signup_request_expiration_days * day;
  reviewed_by_user_id = none;
  reviewed_at = none;
  reject_reason = none;
  anonymized_at = none;
  created_at = now;
  updated_at = now;
}

-- The latest proof of the email that was used, and whether it is less than 30 minutes old.
abbrev pub proof_of : Text → Server → Option EmailVerification
proof_of email s =
    latest_by (λ v. sent_to email signup v && not (is_live v.consumed_at)) s.verifications

abbrev pub is_recent : Time → EmailVerification → Bool
is_recent now v = elim v.consumed_at [
  | none ↦ false
  | some t ↦ ltb now (t + email_verified_window_minutes * 60 * 1000)
]

-- The transaction: the proof is used for this request and is gone.
unfoldable pub store_request :
    Text × Text × Text × Text × Text → Time → Server → Server × Reply SignupRequest
store_request values now s = elim (proof_of values.3 s) [
  | none ↦ (s, http_error 400)
  | some v ↦
      if not (is_recent now v)
      then (s, http_error 400)
      else if not (count_by (is_verification v.id) s.verifications == 1)
      then (s, http_error 400)
      else (
        record s {
          signup_requests = s.signup_requests ++ new_request s.next_id values now ∷ [];
          verifications = delete_by (is_verification v.id) s.verifications;
          next_id = suc s.next_id;
        },
        ok (serialize_signup_request (new_request s.next_id values now)),
      )
]

unfoldable pub create_signup_request :
    (Text → Text) → SignupFields → Time → Server → Server × Reply SignupRequest
create_signup_request hash_password f now s =
    let s_1 = expire_pending_signup_requests now s in
    elim (signup_values hash_password f now s_1) [
      | http_error n ↦ (s_1, http_error n)
      | ok values ↦ store_request values now s_1
    ]
