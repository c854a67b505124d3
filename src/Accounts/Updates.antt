-- ===== src/Accounts/Updates.antt =====
-- `updateUser` and `deactivateUser` of dashboard/server/src/domains/users/users.service.js.
use lidar_dashboard.Prelude.{
  suc, Bool, true, false, not, ◌&&◌, ◌||◌, Option, none, some, List, ◌==◌, if◌then◌else◌,
}
use lidar_dashboard.Prelude.Text.{Text, codes, text_eq, trim, to_lower}
use lidar_dashboard.Prelude.Tables.{find_by, update_by, any_by}
use lidar_dashboard.Auth.Model.{Key, Time, User, RefreshToken}
use lidar_dashboard.Auth.Sessions.{is_blank, has_id, live_of, revoked}
use lidar_dashboard.Accounts.Reply.{Reply, ok, http_error, ◌>>=◌, ◌>>◌, throw_if}
use lidar_dashboard.Accounts.Model.{
  serialize_user, snapshot, user_updated, user_deactivated, Database, UserView,
  create_user_audit_snapshot, logged,
}
use lidar_dashboard.Accounts.Fields.{
  normalize_role_input, validate_user_id, validate_email, validate_phone_number, or_null,
}
use lidar_dashboard.Accounts.Users.{UserFields, clash}

-- `data` of `updateUser`; a column that is not set is `none`, one that becomes null `some none`.
pub record UserChanges : Type 0 where
  pub user_id : Option Text
  pub name : Option Text
  pub email : Option (Option Text)
  pub phone_number : Option (Option Text)
  pub role : Option Text
  pub is_active : Option Bool

abbrev pub new_user_id : User → Option Text → Reply (Option Text)
new_user_id existing none = ok none
new_user_id existing (some t) =
    if text_eq (trim t) existing.user_id
    then ok none
    else validate_user_id (trim t) >>= λ v. ok (some v)

abbrev pub new_name : Option Text → Reply (Option Text)
new_name none = ok none
new_name (some t) = if is_blank (trim t) then http_error 400 else ok (some (trim t))

abbrev pub new_column : (Text → Reply Text) → Option Text → Reply (Option (Option Text))
new_column validate none = ok none
new_column validate (some t) = or_null validate (some t) >>= λ v. ok (some v)

-- Nobody changes their own role.
unfoldable pub new_role : (is_self : Bool) → User → Option Text → Reply (Option Text)
new_role is_self existing none = ok none
new_role is_self existing (some t) = if is_blank (trim t) then http_error 400 else do
  role ← normalize_role_input (some t)
  throw_if (is_self && not (text_eq role existing.role)) 403
  ok (some role)

abbrev pub same_flag : Bool → Bool → Bool
same_flag true b = b
same_flag false b = not b

-- Nor their own active status.
unfoldable pub new_active : (is_self : Bool) → User → Option Bool → Reply (Option Bool)
new_active is_self existing none = ok none
new_active is_self existing (some b) = do
  throw_if (is_self && not (same_flag b existing.is_active)) 403
  ok (some b)

abbrev is_set {ℓ} : {A : Type ℓ} → Option A → Bool
is_set none = false
is_set (some a) = true

abbrev pub any_set : UserChanges → Bool
any_set d =
    is_set d.user_id
    || is_set d.name
    || is_set d.email
    || is_set d.phone_number
    || is_set d.role
    || is_set d.is_active

-- The checks of `updateUser` on an existing user.
unfoldable pub user_changes :
    Key → User → UserFields → (requester : Key) → (requester_role : Text) → Reply UserChanges
user_changes id existing f requester requester_role = do
  let is_self = requester == id
  throw_if (not is_self && not (text_eq (to_lower requester_role) (codes "super_admin"))) 403
  user_id ← new_user_id existing f.user_id
  name ← new_name f.name
  email ← new_column validate_email f.email
  phone_number ← new_column validate_phone_number f.phone_number
  role ← new_role is_self existing f.role
  is_active ← new_active is_self existing f.is_active
  let d : UserChanges = record {
    user_id = user_id;
    name = name;
    email = email;
    phone_number = phone_number;
    role = role;
    is_active = is_active;
  }
  throw_if (not (any_set d)) 400
  ok d

abbrev pub or_old {ℓ} : {A : Type ℓ} → Option A → A → A
or_old none old = old
or_old (some a) old = a

abbrev pub changed_user : UserChanges → User → User
changed_user d u = record u {
  user_id = or_old d.user_id u.user_id;
  name = or_old d.name u.name;
  email = or_old d.email u.email;
  phone_number = or_old d.phone_number u.phone_number;
  role = or_old d.role u.role;
  is_active = or_old d.is_active u.is_active;
}

-- A user who leaves: the sessions so far are over.
abbrev pub left_user : User → User
left_user u = record u { is_active = false; session_version = suc u.session_version }

abbrev pub updated_user : (ends : Bool) → UserChanges → User → User
updated_user ends d u = if ends then left_user (changed_user d u) else changed_user d u

abbrev pub ends_user : User → UserChanges → Bool
ends_user existing d = existing.is_active && elim d.is_active [ none ↦ false | some b ↦ not b ]

abbrev pub revoke_all : Key → Time → List RefreshToken → List RefreshToken
revoke_all id now tokens = update_by (live_of id) (revoked now) tokens

-- The transaction of `updateUser`.
unfoldable pub commit_update :
    Database → Key → User → UserChanges → (requester : Key) → Time → Database × Reply UserView
commit_update db id existing d requester now =
    let ends = ends_user existing d in
    if any_by (λ v. not (v.id == id) && clash (updated_user ends d existing) v) db.tables.users
    then (db, http_error 409)
    else (
      logged db
          (record {
            users = update_by (has_id id) (updated_user ends d) db.tables.users;
            refresh_tokens =
                if ends
                then revoke_all id now db.tables.refresh_tokens
                else db.tables.refresh_tokens;
          })
          (record {
            actor_user_id = requester;
            target_user_id = existing.id;
            action = if ends then user_deactivated else user_updated;
            before_data = some (create_user_audit_snapshot existing);
            after_data = snapshot (create_user_audit_snapshot (updated_user ends d existing));
          }),
      ok (serialize_user (updated_user ends d existing)),
    )

unfoldable pub update_user :
    Database
    → Key
    → UserFields
    → (requester : Key) → (requester_role : Text) → Time
    → Database × Reply UserView
update_user db id f requester requester_role now = elim (find_by (has_id id) db.tables.users) [
  | none ↦ (db, http_error 404)
  | some existing ↦ elim (user_changes id existing f requester requester_role) [
    | http_error n ↦ (db, http_error n)
    | ok d ↦ commit_update db id existing d requester now
  ]
]

unfoldable pub deactivate_user :
    Database → Key → (requester : Key) → Time → Database × Reply UserView
deactivate_user db id requester now = elim (find_by (has_id id) db.tables.users) [
  | none ↦ (db, http_error 404)
  | some existing ↦ if requester == id then (db, http_error 403) else (
    logged db
        (record {
          users = update_by (has_id id) left_user db.tables.users;
          refresh_tokens = revoke_all id now db.tables.refresh_tokens;
        })
        (record {
          actor_user_id = requester;
          target_user_id = existing.id;
          action = user_deactivated;
          before_data = some (create_user_audit_snapshot existing);
          after_data = snapshot (create_user_audit_snapshot (left_user existing));
        }),
    ok (serialize_user (left_user existing)),
  )
]
