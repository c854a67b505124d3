-- ===== src/Accounts/Passwords.antt =====
-- `verifyUserPassword`, `updateUserPassword` and `resetUserPassword` of
-- dashboard/server/src/domains/users/users.service.js. bcrypt's `hash` and `compare` are parameters.
use lidar_dashboard.Prelude.{suc, Bool, not, ◌||◌, Option, none, some, ◌==◌}
use lidar_dashboard.Prelude.Text.{Text, text_eq}
use lidar_dashboard.Prelude.Tables.{find_by, update_by}
use lidar_dashboard.Auth.Model.{Key, Time, User}
use lidar_dashboard.Auth.Sessions.{has_id}
use lidar_dashboard.Accounts.Reply.{Reply, ok, http_error, ◌>>=◌, ◌>>◌, throw_if}
use lidar_dashboard.Accounts.Model.{
  UserAction, user_password_changed, user_password_reset, session_invalidated, Database, UserView,
  serialize_user, logged,
}
use lidar_dashboard.Accounts.Fields.{is_blank_field, field_text, validate_password_policy}
use lidar_dashboard.Accounts.Updates.{revoke_all}

-- The calls of bcrypt.
pub record Hashing : Type 0 where
  pub hash_password : Text → Text
  pub compare_password : (password hash : Text) → Bool

abbrev pub with_password : Text → User → User
with_password hash u = record u { password_hash = hash; session_version = suc u.session_version }

-- The transaction that sets a password and ends the sessions of the user.
unfoldable pub set_password :
    Database → Key → (hash : Text) → UserAction → (requester : Key) → Time → Database
set_password db id hash action requester now =
    logged db
      (record {
        users = update_by (has_id id) (with_password hash) db.tables.users;
        refresh_tokens = revoke_all id now db.tables.refresh_tokens;
      })
      (record {
        actor_user_id = requester;
        target_user_id = id;
        action = action;
        before_data = none;
        after_data = session_invalidated;
      })

-- A success says no more than that.
unfoldable pub verify_user_password :
    Hashing
    → Database
    → Key
    → (requester : Key) → (current_password : Option Text) → Reply (Unit {0})
verify_user_password h db id requester current = do
  throw_if (not (requester == id)) 403
  throw_if (is_blank_field current) 400
  elim (find_by (has_id id) db.tables.users) [
    | none ↦ http_error 404
    | some u ↦ throw_if (not (h.compare_password (field_text current) u.password_hash)) 400
  ]

-- The checks of `updateUserPassword`, up to the new password.
unfoldable pub changed_password :
    Hashing → Database → Key → (requester : Key) → (current new : Option Text) → Reply (User × Text)
changed_password h db id requester current new = do
  throw_if (not (requester == id)) 403
  throw_if (is_blank_field current || is_blank_field new) 400
  password ← validate_password_policy new
  throw_if (text_eq (field_text current) password) 400
  elim (find_by (has_id id) db.tables.users) [
    | none ↦ http_error 404
    | some u ↦ do
      throw_if (not (h.compare_password (field_text current) u.password_hash)) 400
      ok (u, password)
  ]

unfoldable pub update_user_password :
    Hashing
    → Database
    → Key
    → (requester : Key) → (current new : Option Text) → Time
    → Database × Reply UserView
update_user_password h db id requester current new now =
    elim (changed_password h db id requester current new) [
      | http_error n ↦ (db, http_error n)
      | ok (u, password) ↦
          let hash = h.hash_password password in
          (
            set_password db id hash user_password_changed requester now,
            ok (serialize_user (with_password hash u)),
          )
    ]

-- The checks of `resetUserPassword`, up to the new password.
unfoldable pub reset_password :
    Hashing → Database → Key → (requester : Key) → (new : Option Text) → Reply (User × Text)
reset_password h db id requester new = do
  throw_if (requester == id) 400
  password ← validate_password_policy new
  elim (find_by (has_id id) db.tables.users) [
    | none ↦ http_error 404
    | some u ↦ do
      throw_if (not u.is_active) 400
      throw_if (h.compare_password password u.password_hash) 400
      ok (u, password)
  ]

-- The answer leaves the email and the phone number out, which its `select` does not read.
unfoldable pub reset_user_password :
    Hashing
    → Database
    → Key
    → (requester : Key) → (new : Option Text) → Time
    → Database × Reply UserView
reset_user_password h db id requester new now = elim (reset_password h db id requester new) [
  | http_error n ↦ (db, http_error n)
  | ok (u, password) ↦
      let hash = h.hash_password password in
      (
        set_password db id hash user_password_reset requester now,
        ok (serialize_user (record (with_password hash u) { email = none; phone_number = none })),
      )
]
