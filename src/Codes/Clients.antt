-- ===== src/Codes/Clients.antt =====
-- The requests that handle codes, one step for each use of the database or comparison of a code,
-- between which others run:
-- `requestPasswordResetCode`, `verifyPasswordResetCode` and `confirmPasswordReset` of
-- dashboard/server/src/domains/auth/auth.service.js, `sendSignupEmailCode` and
-- `verifySignupEmailCode` of domains/signup-requests/signupRequests.service.js. A request reads
-- the clock once and gets that time as an argument; the mail's delivery is an argument too.
use lidar_dashboard.Prelude.{
  ℕ, ◌+◌, ◌*◌, Bool, false, not, ◌&&◌, ◌||◌, Option, none, some, [], ◌∷◌, leb, length, ◌==◌,
  if◌then◌else◌,
}
use lidar_dashboard.Prelude.Text.{Text, codes, text_eq, trim}
use lidar_dashboard.Prelude.Patterns.{matches}
use lidar_dashboard.Auth.Model.{Key, Time, User}
use lidar_dashboard.Auth.Sessions.{is_blank, is_live}
use lidar_dashboard.Accounts.Policy.{
  is_digit, between, normalize_email, is_email, is_valid_password,
}
use lidar_dashboard.Accounts.Passwords.{Hashing}
use lidar_dashboard.Accounts.Reply.{Reply, ok, http_error}
use lidar_dashboard.Codes.Model.{Purpose, signup, password_reset, EmailVerification}
use lidar_dashboard.Codes.Calls.{
  Call, clean_up, reserve, remove, claim, consume, confirm, code_max_attempts,
}

-- What a request gives at its end.
pub data CodeResult : Type 0 where
  done : CodeResult
  reset_token : Text → (verification : Key) → CodeResult

-- A request between two uses of the database.
pub data Client : Type 0 where
  finish : Reply CodeResult → Client
  find_latest : (email : Text) → Purpose → (Option EmailVerification → Client) → Client
  find_verification : Key → (Option EmailVerification → Client) → Client
  find_user : (email : Text) → (Option User → Client) → Client
  is_taken : (email : Text) → Time → (Bool → Client) → Client
  write : Call → (Option ℕ → Client) → Client
  -- `await bcrypt.compare` of a code with the hash that a verification was read with.
  compare : (verification : Key) → (code hash : Text) → (Bool → Client) → Client

-- What a reset token says, a claim that is missing or empty being `none`, and the calls of
-- jsonwebtoken for it.
pub record ResetClaims : Type 0 where
  pub type : Option Text
  pub email : Option Text
  pub verification_id : Option Key

pub record ResetTokens : Type 0 where
  pub sign : ResetClaims → Time → (minutes : ℕ) → Text
  pub verify : Time → Text → Option ResetClaims

abbrev pub code_ttl_minutes : ℕ
code_ttl_minutes = 10

abbrev pub password_reset_token_ttl_minutes : ℕ
password_reset_token_ttl_minutes = 15

abbrev pub password_reset_token_type : Text
password_reset_token_type = codes "password_reset"

-- \d{6}
unfoldable pub is_code : Text → Bool
is_code code = matches (between 6 6 is_digit ∷ []) code

abbrev pub code_expiry : Time → Time
code_expiry now = now + code_ttl_minutes * 60 * 1000

-- The answer of a request for a reset is the same in all cases.
abbrev pub generic : Client
generic = finish (ok done)

abbrev pub is_active_user : Option User → Bool
is_active_user none = false
is_active_user (some u) = u.is_active

unfoldable pub request_password_reset_code :
    Hashing → (email code : Text) → (delivered : Bool) → Time → Client
request_password_reset_code h email code delivered now =
    let to = normalize_email email in
    write (clean_up now) λ _.
      if not (is_email to)
      then generic
      else find_user to λ u.
        if not (is_active_user u)
        then generic
        else write (reserve to password_reset (h.hash_password code) now (code_expiry now)) λ r.
          elim r [
            | none ↦ generic
            | some i ↦ if delivered then generic else write (remove i) λ _. generic
          ]

-- The part that the two checks of a code share, once its row passed the checks of each: one attempt
-- is taken, then the code is compared, then it is used up.
unfoldable pub use_code : (code : Text) → EmailVerification → Time → CodeResult → Client
use_code code v now result = write (claim v.id) λ r. elim r [
  | none ↦ finish (http_error 429)
  | some n ↦
      if not (n == 1)
      then finish (http_error 429)
      else compare v.id code v.code_hash λ same.
        if not same
        then finish (http_error 400)
        else write (consume v.id now) λ q. elim q [
          | none ↦ finish (http_error 400)
          | some m ↦ if m == 1 then finish (ok result) else finish (http_error 400)
        ]
]

-- A row whose code was used or is over, and one with no attempt left.
abbrev pub is_over : Time → EmailVerification → Bool
is_over now v = not (is_live v.consumed_at) || leb v.expires_at now

unfoldable pub check_code :
    (code : Text) → Option EmailVerification → Time → (EmailVerification → CodeResult) → Client
check_code code none now result = finish (http_error 400)
check_code code (some v) now result =
    if is_over now v
    then finish (http_error 400)
    else if leb code_max_attempts v.attempts
    then finish (http_error 429)
    else use_code code v now (result v)

unfoldable pub verify_password_reset_code : ResetTokens → (email code : Text) → Time → Client
verify_password_reset_code tokens email code now =
    let to = normalize_email email in
    let digits = trim code in
    if not (is_code digits)
    then finish (http_error 400)
    else find_latest to password_reset λ o. check_code digits o now λ v.
      reset_token
        (tokens.sign
          (record {
            type = some password_reset_token_type;
            email = some to;
            verification_id = some v.id;
          })
          now password_reset_token_ttl_minutes)
        v.id

abbrev pub valid_email : Text → Bool
valid_email email = leb (length email) 254 && is_email email

unfoldable pub send_signup_email_code :
    Hashing → (email code : Text) → (delivered : Bool) → Time → Client
send_signup_email_code h email code delivered now =
    let to = normalize_email email in
    if not (valid_email to)
    then finish (http_error 400)
    else is_taken to now λ taken.
      if taken
      then finish (http_error 409)
      else write (reserve to signup (h.hash_password code) now (code_expiry now)) λ r. elim r [
        | none ↦ finish (http_error 429)
        | some i ↦
            if delivered then finish (ok done) else write (remove i) λ _. finish (http_error 502)
      ]

unfoldable pub verify_signup_email_code : (email code : Text) → Time → Client
verify_signup_email_code email code now =
    let to = normalize_email email in
    let digits = trim code in
    if not (valid_email to)
    then finish (http_error 400)
    else if not (is_code digits)
    then finish (http_error 400)
    else find_latest to signup λ o. check_code digits o now λ v. done

abbrev has_type : Option Text → Bool
has_type none = false
has_type (some t) = text_eq t password_reset_token_type

-- The email and the verification of a token of the right type.
abbrev pub reset_claims : ResetClaims → Option (Text × Key)
reset_claims c = elim c.email [
  | none ↦ none
  | some email ↦ elim c.verification_id [
    | none ↦ none
    | some i ↦ if has_type c.type then some (email, i) else none
  ]
]

abbrev pub is_verified : Text → Option EmailVerification → Bool
is_verified email none = false
is_verified email (some v) = text_eq v.email email && not (is_live v.consumed_at)

-- `confirmPasswordReset` with the claims of the token.
unfoldable pub confirm_claims : Text → Key → (hash : Text) → Time → Client
confirm_claims email i hash now = find_verification i λ v.
    if not (is_verified email v)
    then finish (http_error 400)
    else find_user email λ o. elim o [
      | none ↦ finish (http_error 400)
      | some u ↦
          if not u.is_active
          then finish (http_error 400)
          else write (confirm i email u.id hash now) λ r. elim r [
            | none ↦ finish (http_error 400)
            | some n ↦ if n == 1 then finish (ok done) else finish (http_error 400)
          ]
    ]

abbrev pub claims_of : ResetTokens → Text → Time → Option (Text × Key)
claims_of tokens token now = elim (tokens.verify now token) [
  | none ↦ none
  | some c ↦ reset_claims c
]

unfoldable pub confirm_password_reset :
    Hashing → ResetTokens → (token new_password : Text) → Time → Client
confirm_password_reset h tokens token new_password now =
    if is_blank token || not (is_valid_password new_password)
    then finish (http_error 400)
    else elim (claims_of tokens token now) [
      | none ↦ finish (http_error 400)
      | some (email, i) ↦ confirm_claims email i (h.hash_password new_password) now
    ]
