-- ===== src/Accounts/Fields.antt =====
-- What dashboard/server/src/domains/users/users.service.js makes of the fields of a request. A field
-- is `none` where the body has no value of its type for it, a string or a Boolean; the role of
-- a new user is `none` where the value is falsy, and the text that `String` makes of it otherwise.
use lidar_dashboard.Prelude.{Bool, true, ◌||◌, Option, none, some, [], ◌∷◌, if◌then◌else◌}
use lidar_dashboard.Prelude.Text.{Text, codes, text_eq, trim, to_upper}
use lidar_dashboard.Auth.Sessions.{is_blank}
use lidar_dashboard.Accounts.Policy.{
  get_password_validation_error, is_valid_user_id, normalize_phone_number, is_valid_phone_number,
  normalize_email, is_email,
}
use lidar_dashboard.Accounts.Reply.{Reply, ok, http_error, ◌>>=◌}

abbrev pub super_admin : Text
super_admin = codes "SUPER_ADMIN"

abbrev pub manager : Text
manager = codes "MANAGER"

-- `isBlank`.
abbrev pub is_blank_field : Option Text → Bool
is_blank_field none = true
is_blank_field (some t) = is_blank (trim t)

-- `String(value || "")`.
abbrev pub field_text : Option Text → Text
field_text none = []
field_text (some t) = t

abbrev pub allowed_role : Text → Reply Text
allowed_role role =
    if text_eq role super_admin || text_eq role manager then ok role else http_error 400

abbrev pub given_role : Option Text → Text
given_role none = manager
given_role (some []) = manager
given_role (some (c ∷ t)) = to_upper (trim (c ∷ t))

unfoldable pub normalize_role_input : Option Text → Reply Text
normalize_role_input role = allowed_role (given_role role)

unfoldable pub validate_user_id : Text → Reply Text
validate_user_id user_id =
    if is_valid_user_id (trim user_id) then ok (trim user_id) else http_error 400

unfoldable pub validate_email : Text → Reply Text
validate_email email =
    if is_email (normalize_email email) then ok (normalize_email email) else http_error 400

unfoldable pub validate_phone_number : Text → Reply Text
validate_phone_number phone_number =
    if is_valid_phone_number (normalize_phone_number phone_number)
    then ok (normalize_phone_number phone_number)
    else http_error 400

-- The check of the password and the later one by `validatePasswordPolicy`.
unfoldable pub validate_password_policy : Option Text → Reply Text
validate_password_policy none = http_error 400
validate_password_policy (some password) =
    if is_blank (trim password)
    then http_error 400
    else elim (get_password_validation_error password) [
      | none ↦ ok password
      | some e ↦ http_error 400
    ]

-- A field that is optional: empty means null.
abbrev pub or_null : (Text → Reply Text) → Option Text → Reply (Option Text)
or_null validate none = ok none
or_null validate (some t) = if is_blank (trim t) then ok none else validate t >>= λ v. ok (some v)
