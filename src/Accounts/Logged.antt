-- ===== src/Accounts/Logged.antt =====
-- The audit log of the users, and requests that are refused.
use lidar_dashboard.Prelude.{ℕ, ◌≡◌, refl, ap, ◌⊎◌, inl, inr, some, [], ◌∷◌, ◌++◌}
use lidar_dashboard.Prelude.Text.{Text}
use lidar_dashboard.Auth.Model.{Time, User, Library}
use lidar_dashboard.Auth.Sessions.{authenticate_token}
use lidar_dashboard.Accounts.Model.{UserAuditLog, Database}
use lidar_dashboard.Accounts.Reply.{Reply, http_error}
use lidar_dashboard.Accounts.Passwords.{Hashing}
use lidar_dashboard.Accounts.Routes.{Body, UserRequest, handle}
use lidar_dashboard.Accounts.Outcome.{Outcome, refused, read, added, altered}
use lidar_dashboard.Accounts.Refines.{handle-Outcome}

-- One line came to the log, in the name of a user.
abbrev pub IsLogged : User → Database → Database → Type 0
IsLogged requester db after =
    (log : UserAuditLog) × (after.user_audit_logs ≡ db.user_audit_logs ++ log ∷ [])
    × (log.actor_user_id ≡ requester.id)

Outcome-IsLogged :
    {requester : User} {db : Database} {now : Time} {after : Database} {reply : Reply Body}
    → Outcome requester db now after reply
    → (after ≡ db) ⊎ IsLogged requester db after
Outcome-IsLogged (refused n) = inl refl
Outcome-IsLogged (read b) = inl refl
Outcome-IsLogged (added u log b may role apart by) = inr (log, refl, by.0)
Outcome-IsLogged (altered id existing f ends log b a by) = inr (log, refl, by.0)

-- A request changes the database only for a user who was let in, and then adds one line to the
-- audit log, in that user's name.
pub handle-IsLogged :
    (l : Library) (h : Hashing) (db : Database) (header : Text) (now : Time) (r : UserRequest)
    → ((handle l h db header now r).0 ≡ db)
      ⊎ ((requester : User) × (authenticate_token l db.tables header now ≡ some requester)
          × IsLogged requester db (handle l h db header now r).0)
handle-IsLogged l h db header now r = elim (handle-Outcome l h db header now r) [
  | inl e ↦ inl (ap (λ x. x.0) e)
  | inr (requester, e, o) ↦ elim (Outcome-IsLogged o) [
    | inl same ↦ inl same
    | inr log ↦ inr (requester, e, log)
  ]
]

Outcome-unchanged :
    {requester : User} {db : Database} {now : Time} {after : Database} {reply : Reply Body} (n : ℕ)
    → Outcome requester db now after reply
    → reply ≡ http_error n
    → after ≡ db
Outcome-unchanged n (refused m) e = refl
Outcome-unchanged n (read b) e = refl
Outcome-unchanged n (added u log b may role apart by) e = absurd (cc)
Outcome-unchanged n (altered id existing f ends log b a by) e = absurd (cc)

-- A request that is answered with an error changes nothing: no row, no token and no line of the log.
pub handle-http_error :
    (l : Library) (h : Hashing) (db : Database) (header : Text) (now : Time) (r : UserRequest)
    (n : ℕ)
    → (handle l h db header now r).1 ≡ http_error n
    → (handle l h db header now r).0 ≡ db
handle-http_error l h db header now r n k = elim (handle-Outcome l h db header now r) [
  | inl e ↦ ap (λ x. x.0) e
  | inr (requester, e, o) ↦ Outcome-unchanged n o k
]
