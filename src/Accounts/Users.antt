-- ===== src/Accounts/Users.antt =====
-- `createUser` of dashboard/server/src/domains/users/users.service.js. The id
-- of a new row is an argument; a row that repeats a unique column is refused by the database.
use lidar_dashboard.Prelude.{
  Bool, true, false, ◌||◌, Option, none, some, [], ◌∷◌, ◌++◌, ◌==◌, if◌then◌else◌,
}
use lidar_dashboard.Prelude.Text.{Text, text_eq, trim}
use lidar_dashboard.Prelude.Tables.{any_by}
use lidar_dashboard.Auth.Model.{Key, User}
use lidar_dashboard.Accounts.Reply.{Reply, ok, http_error, ◌>>=◌, ◌>>◌, throw_if}
use lidar_dashboard.Accounts.Model.{
  serialize_user, snapshot, user_created, Database, UserView, create_user_audit_snapshot, logged,
}
use lidar_dashboard.Accounts.Fields.{
  is_blank_field, field_text, normalize_role_input, validate_user_id, validate_email,
  validate_phone_number, validate_password_policy, or_null,
}

-- The body of a request, shared by the creation and the update.
pub record UserFields : Type 0 where
  pub user_id : Option Text
  pub name : Option Text
  pub password : Option Text
  pub email : Option Text
  pub phone_number : Option Text
  pub role : Option Text
  pub is_active : Option Bool

abbrev pub same_text : Option Text → Option Text → Bool
same_text none b = false
same_text (some a) none = false
same_text (some a) (some b) = text_eq a b

-- A unique column that two rows share.
abbrev pub clash : User → User → Bool
clash u v =
    text_eq u.user_id v.user_id
    || same_text u.email v.email
    || same_text u.phone_number v.phone_number

abbrev pub or_true : Option Bool → Bool
or_true none = true
or_true (some b) = b

-- `userData` of `createUser`.
unfoldable pub user_data : (Text → Text) → Key → UserFields → Reply User
user_data hash_password new_id f = do
  throw_if (is_blank_field f.user_id || is_blank_field f.name || is_blank_field f.password) 400
  password ← validate_password_policy f.password
  user_id ← validate_user_id (field_text f.user_id)
  email ← or_null validate_email f.email
  phone_number ← or_null validate_phone_number f.phone_number
  role ← normalize_role_input f.role
  ok (record {
    id = new_id;
    user_id = user_id;
    name = trim (field_text f.name);
    role = role;
    password_hash = hash_password password;
    is_active = or_true f.is_active;
    session_version = 0;
    email = email;
    phone_number = phone_number;
    last_login_at = none;
  })

unfoldable pub create_user :
    (Text → Text)
    → (new_id : Key) → Database
    → UserFields
    → (requester : Key) → Database × Reply UserView
create_user hash_password new_id db f requester = elim (user_data hash_password new_id f) [
  | http_error n ↦ (db, http_error n)
  | ok u ↦
      if any_by (λ v. v.id == u.id || clash u v) db.tables.users then (db, http_error 409) else (
        logged db (record db.tables { users = db.tables.users ++ u ∷ [] })
            (record {
              actor_user_id = requester;
              target_user_id = u.id;
              action = user_created;
              before_data = none;
              after_data = snapshot (create_user_audit_snapshot u);
            }),
        ok (serialize_user u),
      )
]
