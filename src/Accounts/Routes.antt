-- ===== src/Accounts/Routes.antt =====
-- The routes of dashboard/server/src/domains/users/users.routes.js with their middlewares
-- (`authenticateToken` and `requireRole` of middlewares/auth.middleware.js) and handlers
-- (users.controller.js). A request may set `new_id`, the id that the database gives to a new row.
use lidar_dashboard.Prelude.{Bool, not, Option, none, some, if◌then◌else◌}
use lidar_dashboard.Prelude.Text.{Text, text_eq, trim, to_upper}
use lidar_dashboard.Prelude.Tables.{find_by}
use lidar_dashboard.Auth.Model.{Key, Time, User, Library}
use lidar_dashboard.Auth.Sessions.{has_id, authenticate_token}
use lidar_dashboard.Accounts.Reply.{Reply, ok, http_error, ◌>>=◌}
use lidar_dashboard.Accounts.Model.{Database, UserView, serialize_user}
use lidar_dashboard.Accounts.Fields.{super_admin}
use lidar_dashboard.Accounts.Users.{UserFields, create_user}
use lidar_dashboard.Accounts.Updates.{update_user, deactivate_user}
use lidar_dashboard.Accounts.Passwords.{
  Hashing, verify_user_password, update_user_password, reset_user_password,
}

unfoldable pub has_role : Text → User → Bool
has_role role u = text_eq (to_upper (trim u.role)) (to_upper (trim role))

unfoldable pub get_user_detail : Database → Key → Reply UserView
get_user_detail db id = elim (find_by (has_id id) db.tables.users) [
  | none ↦ http_error 404
  | some u ↦ ok (serialize_user u)
]

unfoldable pub get_my_profile : Database → Key → Reply UserView
get_my_profile db id =
    get_user_detail db id >>= λ v. if not v.is_active then http_error 404 else ok v

pub data UserRequest : Type 0 where
  get_me : UserRequest
  get_user delete_user : Key → UserRequest
  post_user : (new_id : Key) → UserFields → UserRequest
  patch_user : Key → UserFields → UserRequest
  post_verify : Key → (current : Option Text) → UserRequest
  patch_password : Key → (current new : Option Text) → UserRequest
  patch_reset : Key → (new : Option Text) → UserRequest

pub data Body : Type 0 where
  user : UserView → Body
  verified : Body

abbrev pub with_user : Reply UserView → Reply Body
with_user r = r >>= λ v. ok (user v)

abbrev pub answer_user : Database × Reply UserView → Database × Reply Body
answer_user x = (x.0, with_user x.1)

-- `requireRole("SUPER_ADMIN")` in front of a handler.
abbrev pub only_super_admin : User → Database → Database × Reply Body → Database × Reply Body
only_super_admin requester db x = if has_role super_admin requester then x else (db, http_error 403)

-- A request of a user who was let in.
unfoldable pub route : Hashing → Database → User → Time → UserRequest → Database × Reply Body
route h db requester now get_me = (db, with_user (get_my_profile db requester.id))
route h db requester now (get_user id) =
    only_super_admin requester db (db, with_user (get_user_detail db id))
route h db requester now (delete_user id) =
    only_super_admin requester db (answer_user (deactivate_user db id requester.id now))
route h db requester now (post_user new_id f) =
    only_super_admin requester db
      (answer_user (create_user h.hash_password new_id db f requester.id))
route h db requester now (patch_user id f) =
    answer_user (update_user db id f requester.id requester.role now)
route h db requester now (post_verify id current) =
    (db, verify_user_password h db id requester.id current >>= λ _. ok verified)
route h db requester now (patch_password id current new) =
    answer_user (update_user_password h db id requester.id current new now)
route h db requester now (patch_reset id new) =
    only_super_admin requester db (answer_user (reset_user_password h db id requester.id new now))

-- A request with its `authorization` header.
unfoldable pub handle :
    Library → Hashing → Database → (header : Text) → Time → UserRequest → Database × Reply Body
handle l h db header now r = elim (authenticate_token l db.tables header now) [
  | none ↦ (db, http_error 401)
  | some requester ↦ route h db requester now r
]
