-- ===== src/Accounts/Refines.antt =====
-- The routes of the users keep to what they promise.
mod Management
mod Passwords
use mathlib.Core.Path.{subst}
use lidar_dashboard.Prelude.{
  ◌≡◌, refl, ap, ◌∙◌, ◌⊎◌, inl, inr, Bool, true, false, not, ◌&&◌, ◌||◌, Option, none, some, ◌==◌,
  arith, Bool-cases, Option-cases,
}
use lidar_dashboard.Prelude.Text.{Text, text_eq}
use lidar_dashboard.Prelude.Tables.{any_by}
use lidar_dashboard.Auth.Model.{Key, Time, User, Tables, Library}
use lidar_dashboard.Auth.Sessions.{authenticate_token}
use lidar_dashboard.Auth.SessionEnd.{user_at}
use lidar_dashboard.Accounts.Reply.{
  Reply, ok, http_error, >>=-ok, throw_if->>-ok, ok_injective, Reply-cases,
}
use lidar_dashboard.Accounts.Model.{Database}
use lidar_dashboard.Accounts.Fields.{
  super_admin, validate_user_id, validate_email, validate_phone_number, validate_password_policy,
  normalize_role_input, is_blank_field, field_text, or_null,
}
use lidar_dashboard.Accounts.Users.{clash, user_data, create_user, UserFields}
use lidar_dashboard.Accounts.Updates.{
  user_changes, ends_user, updated_user, left_user, commit_update, update_user, deactivate_user,
  UserChanges, or_old,
}
use lidar_dashboard.Accounts.Passwords.{
  Hashing, changed_password, reset_password, with_password, set_password, update_user_password,
  reset_user_password,
}
use lidar_dashboard.Accounts.Routes.{
  has_role, Body, answer_user, only_super_admin, get_me, get_user, delete_user, post_user,
  patch_user, post_verify, patch_password, patch_reset, UserRequest, route, handle,
}
use lidar_dashboard.Accounts.Checks.{
  IsAllowed, normalize_role_input-IsAllowed, Checked, user_changes-Checked,
}
use lidar_dashboard.Accounts.Rows.{found_id}
use lidar_dashboard.Accounts.Outcome.{
  MayManage, Alters, Outcome, refused, read, added, altered, Gives,
}
use lidar_dashboard.Accounts.Refines.Management.{
  create_user-Gives, update_user-Gives, deactivate_user-Gives,
}
use lidar_dashboard.Accounts.Refines.Passwords.{
  update_user_password-Gives, reset_user_password-Gives,
}

only_super_admin-Gives :
    (requester : User) (db : Database) (now : Time) (x : Database × Reply Body)
    → (MayManage requester → Gives requester db now x)
    → Gives requester db now (only_super_admin requester db x)
only_super_admin-Gives requester db now x h = elim (Bool-cases (has_role super_admin requester)) [
  | inl e ↦ rw e (h (inl e))
  | inr e ↦ rw e (refused 403)
]

reads-Gives :
    (requester : User) (db : Database) (now : Time) (r : Reply Body)
    → Gives requester db now (db, r)
reads-Gives requester db now (ok b) = read b
reads-Gives requester db now (http_error n) = refused n

-- Every request of a user who was let in has one of the outcomes.
pub route-Outcome :
    (h : Hashing) (db : Database) (requester : User) (now : Time) (r : UserRequest)
    → Outcome requester db now (route h db requester now r).0 (route h db requester now r).1
unfolding route
route-Outcome h db requester now get_me = reads-Gives requester db now _
route-Outcome h db requester now (get_user id) =
    only_super_admin-Gives requester db now _ (λ m. reads-Gives requester db now _)
route-Outcome h db requester now (delete_user id) =
    only_super_admin-Gives requester db now _ (deactivate_user-Gives db id requester now)
route-Outcome h db requester now (post_user new_id f) =
    only_super_admin-Gives requester db now _
      (create_user-Gives h.hash_password new_id db f requester now)
route-Outcome h db requester now (patch_user id f) = update_user-Gives db id f requester now
route-Outcome h db requester now (post_verify id current) = reads-Gives requester db now _
route-Outcome h db requester now (patch_password id current new) =
    update_user_password-Gives h db id requester current new now
route-Outcome h db requester now (patch_reset id new) =
    only_super_admin-Gives requester db now _ (reset_user_password-Gives h db id requester new now)

-- Every request is refused without a change by 401, or is let through for an active user of the
-- tables, and has one of the outcomes for that user.
pub handle-Outcome :
    (l : Library) (h : Hashing) (db : Database) (header : Text) (now : Time) (r : UserRequest)
    → (handle l h db header now r ≡ (db, http_error 401))
      ⊎ ((requester : User) × (authenticate_token l db.tables header now ≡ some requester)
          × Outcome requester db now (handle l h db header now r).0 (handle l h db header now r).1)
unfolding handle
handle-Outcome l h db header now r =
    elim (Option-cases (authenticate_token l db.tables header now)) [
      | inl e ↦ inl (rw (e, handle) refl)
      | inr (requester, e) ↦ inr (requester, e, rw (e, handle) (route-Outcome h db requester now r))
    ]
