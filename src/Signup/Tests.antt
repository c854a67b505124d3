-- ===== src/Signup/Tests.antt =====
-- Runs of the signup requests, and their theorems at concrete inputs.
use lidar_dashboard.Prelude.{◌+◌, ◌*◌, ◌≡◌, refl, none, some, List, [], ◌∷◌}
use lidar_dashboard.Prelude.Text.{
  to_upper, upper_code, Text, codes, text_eq, trim, trim_start, trim_end, to_lower, lower_code,
  is_space,
}
use lidar_dashboard.Prelude.Tables.{All, find_by, update_by, count_by, delete_by, any_by}
use lidar_dashboard.Prelude.Patterns.{matches, repeats}
use lidar_dashboard.Auth.Samples.{operator}
use lidar_dashboard.Accounts.Policy.{
  is_valid_user_id, is_valid_password, get_password_validation_error, utf8_length,
  utf8_length_after, normalize_phone_number, digits_of, is_valid_phone_number, normalize_email,
  is_email, is_plain,
}
use lidar_dashboard.Accounts.Reply.{http_error}
use lidar_dashboard.Codes.Model.{
  signup, approved, SignupRequest, EmailVerification, Server, latest_by,
}
use lidar_dashboard.Codes.Calls.{perform}
use lidar_dashboard.Signup.Maintenance.{
  day, expire_pending_signup_requests, anonymize_signup_requests, run_signup_request_maintenance,
}
use lidar_dashboard.Signup.Requests.{
  SignupFields, valid_user_id, valid_name, valid_signup_email, valid_phone, user_id_taken,
  phone_taken, signup_values, store_request, create_signup_request,
}
use lidar_dashboard.Signup.Review.{
  is_request, requested_user, approve_request, approve_signup_request, reject_request,
  reject_signup_request,
}
use lidar_dashboard.Signup.Actions.{Action, maintain, create, approve, reject, act, act_all}
use lidar_dashboard.Signup.Listing.{
  parse_positive_integer, status_filter, insert_request, newest_first, Listed, list_page,
  list_signup_requests,
}
use lidar_dashboard.Signup.Life.{Evolves}
use lidar_dashboard.Signup.Refines.{act_all-Evolves}
use lidar_dashboard.Signup.Final.{act_all-settled}
use lidar_dashboard.Signup.Kept.{IsKept, act_all-IsKept}
use lidar_dashboard.Signup.Balance.{accounts, approvals}
use lidar_dashboard.Signup.Approvals.{act_all-approvals}

signups : Unit {0}
unfolding text_eq trim trim_start trim_end to_lower lower_code is_space find_by update_by count_by
    delete_by any_by matches repeats is_valid_user_id is_valid_password
    get_password_validation_error utf8_length utf8_length_after normalize_phone_number digits_of
    is_valid_phone_number normalize_email is_email is_plain latest_by perform
    expire_pending_signup_requests anonymize_signup_requests run_signup_request_maintenance
    valid_user_id valid_name valid_signup_email valid_phone user_id_taken phone_taken signup_values
    store_request create_signup_request requested_user approve_request approve_signup_request
    reject_request reject_signup_request act act_all parse_positive_integer status_filter
    insert_request newest_first list_page list_signup_requests to_upper upper_code
signups = tt

-- An email that was proved at the time 1000.
abbrev proof : EmailVerification
proof = record {
  id = 0;
  email = codes "lee@home.kr";
  purpose = signup;
  code_hash = codes "123456";
  expires_at = 600000;
  attempts = 1;
  consumed_at = some 1000;
  created_at = 0;
}

abbrev office : Server
office = record {
  database = record {
    tables = record { users = operator ∷ []; refresh_tokens = [] };
    user_audit_logs = [];
  };
  verifications = proof ∷ [];
  signup_requests = [];
  event_logs = [];
  next_id = 1;
}

abbrev lee : SignupFields
lee = record {
  user_id = some (codes "lee7");
  name = some (codes "Lee");
  password = some (codes "long secret");
  email = some (codes " Lee@home.kr");
  phone_number = some (codes "010-1234-5678");
}

abbrev same_text_back : Text → Text
same_text_back t = t

-- A request that is made twice with one proof, approved twice and rejected in between.
abbrev story : List Action
story =
    create lee 2000
    ∷ create lee 2000
    ∷ approve 1 4 3000
    ∷ reject 1 4 none 4000
    ∷ approve 1 4 5000
    ∷ maintain (100 * day)
    ∷ []

abbrev told : Server
told = act_all same_text_back office story

approvals_test : approvals told ≡ 1
unfolding signups
approvals_test = refl

accounts_test : accounts told ≡ 2
unfolding signups
accounts_test = refl

act_all-Evolves_example : Evolves [] told.signup_requests
act_all-Evolves_example = act_all-Evolves same_text_back office story

act_all-approvals_example : accounts told + approvals office ≡ accounts office + approvals told
act_all-approvals_example = act_all-approvals same_text_back office story

act_all-IsKept_example : All IsKept told.signup_requests
act_all-IsKept_example = act_all-IsKept same_text_back office story tt

-- The request once it is approved.
abbrev asked : Server
asked = act_all same_text_back office (create lee 2000 ∷ approve 1 4 3000 ∷ [])

abbrev approved_request : SignupRequest
approved_request = record {
  id = 1;
  user_id = some (codes "lee7");
  name = some (codes "Lee");
  password_hash = none;
  email = some (codes "lee@home.kr");
  phone_number = some (codes "01012345678");
  requested_role = codes "MANAGER";
  status = approved;
  expires_at = 2000 + 30 * day;
  reviewed_by_user_id = some 4;
  reviewed_at = some 3000;
  reject_reason = none;
  anonymized_at = none;
  created_at = 2000;
  updated_at = 3000;
}

asked_test : find_by (is_request 1) asked.signup_requests ≡ some approved_request
unfolding signups
asked_test = refl

act_all-settled_example :
    ((u : SignupRequest) × (find_by
          (is_request 1)
          (act_all same_text_back asked (reject 1 4 none 4000 ∷ [])).signup_requests
        ≡ some u)
      × (u.status ≡ approved))
    × ((approve_signup_request 1 4 5000
          (act_all same_text_back asked (reject 1 4 none 4000 ∷ []))).1
        ≡ http_error 409)
    × ((reject_signup_request 1 4 none 5000
          (act_all same_text_back asked (reject 1 4 none 4000 ∷ []))).1
        ≡ http_error 409)
act_all-settled_example =
    act_all-settled same_text_back asked (reject 1 4 none 4000 ∷ []) 1 4 none 5000 approved_request
      asked_test refl

-- The requests that were approved, while there is one.
abbrev listed : Listed
listed = list_page (approved_request ∷ []) 1 20
