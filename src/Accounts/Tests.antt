-- ===== src/Accounts/Tests.antt =====
-- Runs of the accounts, and their theorems at concrete inputs.
use lidar_dashboard.Prelude.{◌≡◌, refl, ◌⊎◌, ◌↔◌, inl, inr, true, false, none, some, [], ◌∷◌, ◌++◌}
use lidar_dashboard.Prelude.Text.{
  Text, codes, text_eq, trim, trim_start, trim_end, to_lower, to_upper, is_space, upper_code,
  lower_code,
}
use lidar_dashboard.Prelude.Tables.{find_by, update_by, count_by, any_by, delete_by}
use lidar_dashboard.Prelude.Patterns.{matches, repeats}
use lidar_dashboard.Auth.Model.{User}
use lidar_dashboard.Auth.Samples.{plain, plain-Lawful, operator}
use lidar_dashboard.Auth.Sessions.{
  live_of, bearer_token, claimed_user, authenticate_token, create_access_token, login, sign_in,
  check_credentials, logout,
}
use lidar_dashboard.Auth.SessionEnd.{user_at}
use lidar_dashboard.Accounts.Policy.{
  is_email, is_plain, is_valid_password, get_password_validation_error, utf8_length,
  utf8_length_after, normalize_phone_number, digits_of, normalize_email, is_valid_user_id,
  is_valid_phone_number,
}
use lidar_dashboard.Accounts.Credentials.{IsEmail, is_email-IsEmail}
use lidar_dashboard.Accounts.Reply.{http_error}
use lidar_dashboard.Accounts.Model.{Database}
use lidar_dashboard.Accounts.Fields.{
  super_admin, normalize_role_input, validate_user_id, validate_email, validate_phone_number,
  validate_password_policy,
}
use lidar_dashboard.Accounts.Users.{user_data, create_user}
use lidar_dashboard.Accounts.Updates.{
  user_changes, new_role, new_active, commit_update, update_user, deactivate_user, left_user,
}
use lidar_dashboard.Accounts.Passwords.{
  Hashing, set_password, verify_user_password, changed_password, update_user_password,
  reset_password, reset_user_password,
}
use lidar_dashboard.Accounts.Routes.{
  has_role, get_user_detail, get_my_profile, delete_user, route, handle,
}
use lidar_dashboard.Accounts.Outcome.{Outcome}
use lidar_dashboard.Accounts.Refines.{handle-Outcome}
use lidar_dashboard.Accounts.Governed.{Governed}
use lidar_dashboard.Accounts.Moves.{by_request, Moves, stop, move}
use lidar_dashboard.Accounts.Rule.{Moves-Governed}
use lidar_dashboard.Accounts.Ended.{handle-authenticate_token}
use lidar_dashboard.Accounts.Logged.{IsLogged, handle-IsLogged, handle-http_error}

accounts : Unit {0}
unfolding matches repeats text_eq trim trim_start trim_end to_lower to_upper is_space upper_code
    lower_code find_by update_by count_by any_by delete_by bearer_token claimed_user
    authenticate_token create_access_token login sign_in check_credentials logout is_email is_plain
    is_valid_password get_password_validation_error utf8_length utf8_length_after
    normalize_phone_number digits_of normalize_email is_valid_user_id is_valid_phone_number
    normalize_role_input validate_user_id validate_email validate_phone_number
    validate_password_policy user_data create_user user_changes new_role new_active commit_update
    update_user deactivate_user set_password verify_user_password changed_password
    update_user_password reset_password reset_user_password has_role get_user_detail get_my_profile
    route handle
accounts = tt

-- An email, a password and a phone number.
is_email-IsEmail_example : (is_email (codes "kim@home.kr") ≡ true) ↔ IsEmail (codes "kim@home.kr")
is_email-IsEmail_example = is_email-IsEmail (codes "kim@home.kr")

is_email_test : is_email (codes "kim@home.") ≡ false
unfolding accounts
is_email_test = refl

password_test : is_valid_password (codes "long secret") ≡ true
unfolding accounts
password_test = refl

phone_test : normalize_phone_number (codes " +82 10-1234 ") ≡ codes "+82101234"
unfolding accounts
phone_test = refl

-- Two users, their access tokens, and a super admin who deactivates the other.
abbrev admin : User
admin = record operator { id = 1; user_id = codes "root"; role = super_admin }

abbrev secrets : Hashing
secrets = record { hash_password = λ p. p; compare_password = λ p h. text_eq p h }

abbrev office : Database
office = record {
  tables = record {
    users = admin ∷ operator ∷ [];
    refresh_tokens =
        record { user_id = 4; token_hash = 7 ∷ []; expires_at = 9000; revoked_at = none } ∷ [];
  };
  user_audit_logs = [];
}

abbrev admin_header : Text
admin_header = codes "Bearer " ++ 3000 ∷ 1 ∷ 1 ∷ []

abbrev operator_header : Text
operator_header = codes "Bearer " ++ 3000 ∷ 4 ∷ 1 ∷ []

abbrev dismissed : Database
dismissed = (handle plain secrets office admin_header 2000 (delete_user 4)).0

operator_header_test : authenticate_token plain office.tables operator_header 1000 ≡ some operator
unfolding accounts
operator_header_test = refl

dismissed_test : user_at 4 dismissed.tables ≡ some (left_user operator)
unfolding accounts
dismissed_test = refl

-- The super admin, who cannot leave, and the operator, who may not ask.
leave_test :
    handle plain secrets office admin_header 2000 (delete_user 1) ≡ (office, http_error 403)
unfolding accounts
leave_test = refl

delete_test : (handle plain secrets office operator_header 2000 (delete_user 1)).1 ≡ http_error 403
unfolding accounts
delete_test = refl

office-Governed : Governed office.tables
unfolding accounts
office-Governed = record {
  allowed = (inl refl, (inr refl, tt));
  admin = (1, admin, refl, refl, refl);
}

abbrev later : Moves plain secrets office dismissed
later = move (by_request admin_header 2000 (delete_user 4)) stop

handle-authenticate_token_example :
    (count_by (live_of 4) dismissed.tables.refresh_tokens ≡ 0)
    × (authenticate_token plain dismissed.tables operator_header 2500 ≡ none)
handle-authenticate_token_example =
    handle-authenticate_token plain plain-Lawful secrets office dismissed operator_header
      admin_header 1000 2000 2500 (delete_user 4) operator (left_user operator) operator_header_test
      dismissed_test (inl (refl, refl)) stop

Moves-Governed_example : Governed dismissed.tables
Moves-Governed_example = Moves-Governed later office-Governed

handle-Outcome_example :
    (handle plain secrets office admin_header 2000 (delete_user 4) ≡ (office, http_error 401))
    ⊎ ((requester : User) × (authenticate_token plain office.tables admin_header 2000
          ≡ some requester)
        × Outcome requester office 2000 dismissed
            (handle plain secrets office admin_header 2000 (delete_user 4)).1)
handle-Outcome_example = handle-Outcome plain secrets office admin_header 2000 (delete_user 4)

handle-IsLogged_example :
    (dismissed ≡ office)
    ⊎ ((requester : User) × (authenticate_token plain office.tables admin_header 2000
          ≡ some requester)
        × IsLogged requester office dismissed)
handle-IsLogged_example = handle-IsLogged plain secrets office admin_header 2000 (delete_user 4)

handle-http_error_example :
    (handle plain secrets office operator_header 2000 (delete_user 1)).0 ≡ office
handle-http_error_example =
    handle-http_error plain secrets office operator_header 2000 (delete_user 1) 403 delete_test
