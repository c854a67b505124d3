-- ===== src/Accounts/Outcome.antt =====
-- What the routes of the users promise, without their checks and fields: a request is refused and
-- changes nothing, or it reads, adds a user or alters one.
use lidar_dashboard.Prelude.{
  ℕ, suc, ◌≡◌, ◌⊎◌, Bool, true, false, ◌||◌, some, [], ◌∷◌, ◌++◌, ◌==◌, if◌then◌else◌,
}
use lidar_dashboard.Prelude.Text.{codes, text_eq, to_lower}
use lidar_dashboard.Prelude.Tables.{update_by, any_by}
use lidar_dashboard.Auth.Model.{Key, Time, User, Tables}
use lidar_dashboard.Auth.Sessions.{has_id}
use lidar_dashboard.Auth.SessionEnd.{user_at}
use lidar_dashboard.Accounts.Reply.{Reply, ok, http_error}
use lidar_dashboard.Accounts.Model.{UserAuditLog, Database, logged}
use lidar_dashboard.Accounts.Fields.{super_admin}
use lidar_dashboard.Accounts.Users.{clash}
use lidar_dashboard.Accounts.Updates.{revoke_all}
use lidar_dashboard.Accounts.Routes.{has_role, Body}
use lidar_dashboard.Accounts.Checks.{IsAllowed}

-- Who may act on other users.
abbrev pub MayManage : User → Type 0
MayManage u =
    (has_role super_admin u ≡ true) ⊎ (text_eq (to_lower u.role) (codes "super_admin") ≡ true)

-- What may be done to a user's row: only a super admin acts on somebody else and sets roles, nobody
-- changes their own role or active status, and where a user becomes inactive or has a new password
-- the sessions end.
pub record Alters (requester : User) (db : Tables) (id : Key) (existing : User) (f : User → User)
    (ends : Bool) : Type 0 where
  pub found : user_at id db ≡ some existing
  pub other : (requester.id == id) ≡ false → MayManage requester
  pub own_role : (requester.id == id) ≡ true → (f existing).role ≡ existing.role
  pub own_active : (requester.id == id) ≡ true → (f existing).is_active ≡ existing.is_active
  pub same_id : (u : User) → (f u).id ≡ u.id
  pub allowed : (u : User) → IsAllowed u.role → IsAllowed (f u).role
  pub version :
      (u : User)
      → (f u).session_version ≡ (if ends then suc u.session_version else u.session_version)
  pub left : existing.is_active ≡ true → (f existing).is_active ≡ false → ends ≡ true
  pub kept_password : ends ≡ false → (u : User) → (f u).password_hash ≡ u.password_hash

abbrev pub with_user_added : Tables → User → Tables
with_user_added db u = record db { users = db.users ++ u ∷ [] }

abbrev pub with_user_altered : Tables → Key → (User → User) → (ends : Bool) → Time → Tables
with_user_altered db id f ends now = record {
  users = update_by (has_id id) f db.users;
  refresh_tokens = if ends then revoke_all id now db.refresh_tokens else db.refresh_tokens;
}

-- A line of the audit log.
abbrev pub IsBy : Key → Key → UserAuditLog → Type 0
IsBy actor target log = (log.actor_user_id ≡ actor) × (log.target_user_id ≡ target)

pub data Outcome (requester : User) (db : Database) (now : Time)
    : Database → Reply Body → Type 0 where
  refused : (n : ℕ) → Outcome requester db now db (http_error n)
  read : (b : Body) → Outcome requester db now db (ok b)
  added :
      (u : User) (log : UserAuditLog) (b : Body)
      → MayManage requester
      → IsAllowed u.role
      → any_by (λ v. v.id == u.id || clash u v) db.tables.users ≡ false
      → IsBy requester.id u.id log
      → Outcome requester db now (logged db (with_user_added db.tables u) log) (ok b)
  altered :
      (id : Key) (existing : User) (f : User → User) (ends : Bool) (log : UserAuditLog) (b : Body)
      → Alters requester db.tables id existing f ends
      → IsBy requester.id id log
      → Outcome requester db now (logged db (with_user_altered db.tables id f ends now) log) (ok b)

-- How a handler's result with a user stands to the outcomes.
abbrev pub Gives : User → Database → Time → Database × Reply Body → Type 0
Gives requester db now x = Outcome requester db now x.0 x.1
