-- ===== src/Codes/Tests.antt =====
-- Runs of the codes, and their theorems at concrete inputs.
use lidar_dashboard.Prelude.{◌≤◌, ◌≡◌, refl, true, Option, none, some, List, [], ◌∷◌}
use lidar_dashboard.Prelude.Text.{
  Text, codes, text_eq, trim, trim_start, trim_end, to_lower, lower_code, is_space,
}
use lidar_dashboard.Prelude.Tables.{All, find_by, update_by, count_by, delete_by, any_by, sum_by}
use lidar_dashboard.Prelude.Patterns.{matches, repeats}
use lidar_dashboard.Auth.Model.{Key}
use lidar_dashboard.Auth.Samples.{operator}
use lidar_dashboard.Accounts.Model.{Database}
use lidar_dashboard.Accounts.Passwords.{Hashing, set_password}
use lidar_dashboard.Accounts.Policy.{
  normalize_email, is_email, is_plain, is_valid_password, get_password_validation_error,
  utf8_length, utf8_length_after,
}
use lidar_dashboard.Codes.Model.{latest_by}
use lidar_dashboard.Codes.Calls.{perform}
use lidar_dashboard.Codes.Clients.{
  ResetClaims, ResetTokens, is_code, request_password_reset_code, use_code, check_code,
  verify_password_reset_code, send_signup_email_code, verify_signup_email_code, confirm_claims,
  confirm_password_reset,
}
use lidar_dashboard.Codes.Run.{
  turn, request_reset, verify_reset, confirm_reset, client_of, World, Happening, arrive, go_on,
  happen, run, start,
}
use lidar_dashboard.Codes.Counting.{times}
use lidar_dashboard.Codes.Limits.{is_claim_of}
use lidar_dashboard.Codes.Guesses.{guesses, run-guesses}
use lidar_dashboard.Codes.Resets.{resets, IsLoggedReset, run-confirm}
use lidar_dashboard.Codes.Honest.{holds}
use lidar_dashboard.Codes.Tokens.{run-holds}

mails : Unit {0}
unfolding text_eq trim trim_start trim_end to_lower lower_code is_space find_by update_by count_by
    delete_by any_by sum_by matches repeats set_password normalize_email is_email is_plain
    is_valid_password get_password_validation_error utf8_length utf8_length_after latest_by perform
    is_code request_password_reset_code use_code check_code verify_password_reset_code
    send_signup_email_code verify_signup_email_code confirm_claims confirm_password_reset turn
    client_of happen run
mails = tt

abbrev plain_hashing : Hashing
plain_hashing = record { hash_password = λ p. p; compare_password = λ p h. text_eq p h }

abbrev reset_claims_of : Key → ResetClaims
reset_claims_of i = record {
  type = some (codes "password_reset");
  email = some (codes "kim@home.kr");
  verification_id = some i;
}

abbrev or_zero : Option Key → Key
or_zero none = 0
or_zero (some i) = i

abbrev read_token : Text → Option ResetClaims
read_token [] = none
read_token (i ∷ rest) = some (reset_claims_of i)

-- Tokens that are not signed: the id of the verification, after one more.
abbrev plain_tokens : ResetTokens
plain_tokens = record {
  sign = λ c at minutes. or_zero c.verification_id ∷ [];
  verify = λ now t. read_token t;
}

abbrev home : Database
home = record {
  tables = record {
    users = record operator { email = some (codes "kim@home.kr") } ∷ [];
    refresh_tokens = [];
  };
  user_audit_logs = [];
}

-- A code is sent, two requests check it at the same time, and its token is used twice.
abbrev story : List Happening
story =
    arrive (request_reset (codes " Kim@home.kr") (codes "123456") true 1000)
    ∷ go_on 0
    ∷ go_on 0
    ∷ go_on 0
    ∷ arrive (verify_reset (codes "kim@home.kr") (codes "123456") 2000)
    ∷ arrive (verify_reset (codes "kim@home.kr") (codes "123456") 2000)
    ∷ go_on 1
    ∷ go_on 2
    ∷ go_on 1
    ∷ go_on 2
    ∷ go_on 2
    ∷ go_on 1
    ∷ go_on 1
    ∷ go_on 2
    ∷ arrive (confirm_reset (0 ∷ []) (codes "new secret") 3000)
    ∷ arrive (confirm_reset (0 ∷ []) (codes "my secret") 3000)
    ∷ go_on 3
    ∷ go_on 4
    ∷ go_on 3
    ∷ go_on 4
    ∷ go_on 4
    ∷ go_on 3
    ∷ []

abbrev told : World
told = run plain_hashing plain_tokens (start home) story

claims_test : times (is_claim_of 0) told.log ≡ 2
unfolding mails
claims_test = refl

tokens_test : count_by (holds 0) told.clients ≡ 1
unfolding mails
tokens_test = refl

guesses_test : guesses 0 told.log ≡ 2
unfolding mails
guesses_test = refl

confirms_test : resets 0 told.log ≡ 1
unfolding mails
confirms_test = refl

run-guesses_example :
    (guesses 0 told.log ≤ times (is_claim_of 0) told.log) × (times (is_claim_of 0) told.log ≤ 5)
run-guesses_example = run-guesses plain_hashing plain_tokens 0 home story

run-confirm_example : (resets 0 told.log ≤ 1) × All (IsLoggedReset 0) told.log
run-confirm_example = run-confirm plain_hashing plain_tokens 0 home story

run-holds_example : count_by (holds 0) told.clients ≤ 1
run-holds_example = run-holds plain_hashing plain_tokens 0 home story
