-- ===== src/Accounts/Governed.antt =====
-- There is always somebody who can manage the users.
use mathlib.Core.Path.{subst}
use lidar_dashboard.Prelude.{
  ◌≡◌, sym, ap, ◌∙◌, inl, inr, Bool, true, some, [], ◌∷◌, ◌==◌, arith, Bool-cases,
}
use lidar_dashboard.Prelude.Text.{Text, text_eq, to_lower, trim, to_upper}
use lidar_dashboard.Prelude.Tables.{All, All-find_by, All-append, All-update_by, find_by-append}
use lidar_dashboard.Auth.Model.{Key, Time, User, Tables, Library}
use lidar_dashboard.Auth.Sessions.{has_id}
use lidar_dashboard.Auth.SessionEnd.{user_at}
use lidar_dashboard.Accounts.Model.{Database}
use lidar_dashboard.Accounts.Fields.{super_admin, manager}
use lidar_dashboard.Accounts.Reply.{Reply}
use lidar_dashboard.Accounts.Passwords.{Hashing}
use lidar_dashboard.Accounts.Routes.{has_role, Body, UserRequest, handle}
use lidar_dashboard.Accounts.Checks.{IsAllowed}
use lidar_dashboard.Accounts.Outcome.{
  MayManage, Alters, with_user_altered, Outcome, refused, read, added, altered,
}
use lidar_dashboard.Accounts.Rows.{
  found_id, user_at-altered, user_at-other, authenticate_token-user_at,
  authenticate_token-is_active,
}
use lidar_dashboard.Accounts.Refines.{handle-Outcome}

abbrev pub HasAdmin : Tables → Type 0
HasAdmin db =
    (i : Key) × (u : User) × (user_at i db ≡ some u) × (u.is_active ≡ true) × (u.role ≡ super_admin)

-- Each user has one of the two roles, and an active user is a super admin.
pub record Governed (db : Tables) : Type 0 where
  pub allowed : All (λ u. IsAllowed u.role) db.users
  pub admin : HasAdmin db

-- Of the two roles, only one may manage.
manager_not : (u : User) → u.role ≡ manager → MayManage u → u.role ≡ super_admin
unfolding has_role text_eq trim to_upper to_lower
manager_not u e (inl h) = (let j = rw e at h in absurd (cc))
manager_not u e (inr h) = (let j = rw e at h in absurd (cc))

MayManage-role : (u : User) → IsAllowed u.role → MayManage u → u.role ≡ super_admin
MayManage-role u (inl e) may = e
MayManage-role u (inr e) may = manager_not u e may

same_key : (i j : Key) → (i == j) ≡ true → i ≡ j
same_key i j h = ground arith

some_injective : {u v : User} → some u ≡ some v → u ≡ v
some_injective h = cc

module _ (requester : User) (db : Tables) (now : Time)
    (found : user_at requester.id db ≡ some requester) (active : requester.is_active ≡ true) where
  altered-HasAdmin :
      (id : Key) (existing : User) (f : User → User) (ends : Bool)
      → Alters requester db id existing f ends
      → Governed db
      → HasAdmin (with_user_altered db id f ends now)
  altered-HasAdmin id existing f ends a g =
      let (i, u, at, on, role) = g.admin in
      elim (Bool-cases (u.id == id)) [
        | inr e ↦ (i, u, user_at-other db id f ends now a.same_id i u at e, on, role)
        | inl e ↦ elim (Bool-cases (requester.id == id)) [
          | inr k ↦ (
            requester.id,
            requester,
            user_at-other db id f ends now a.same_id requester.id requester found k,
            active,
            MayManage-role requester
                (All-find_by (λ v. IsAllowed v.role) (has_id requester.id) db.users requester
                  g.allowed found)
                (a.other k),
          )
          | inl k ↦
              let there : user_at id db ≡ some u =
                subst (λ j. user_at j db ≡ some u) (sym (found_id db i u at) ∙ same_key u.id id e)
                  at in
              let same : existing ≡ u = some_injective (sym a.found ∙ there) in
              (
                id,
                f existing,
                user_at-altered db id f ends now a.same_id existing a.found,
                a.own_active k ∙ ap (λ v. v.is_active) same ∙ on,
                a.own_role k ∙ ap (λ v. v.role) same ∙ role,
              )
        ]
      ]

module _ (requester : User) (db : Database) (now : Time)
    (found : user_at requester.id db.tables ≡ some requester)
    (active : requester.is_active ≡ true) where
  Outcome-Governed :
      {after : Database} {reply : Reply Body}
      → Outcome requester db now after reply
      → Governed db.tables
      → Governed after.tables
  Outcome-Governed (refused n) g = g
  Outcome-Governed (read b) g = g
  Outcome-Governed (added u log b may role apart by) g =
      let (i, v, at, on, super) = g.admin in
      record {
        allowed = All-append (λ u. IsAllowed u.role) db.tables.users (u ∷ []) g.allowed (role, tt);
        admin = (i, v, find_by-append (has_id i) db.tables.users (u ∷ []) v at, on, super);
      }
  Outcome-Governed (altered id existing f ends log b a by) g = record {
    allowed =
        All-update_by (λ u. IsAllowed u.role) (has_id id) f db.tables.users a.allowed g.allowed;
    admin = altered-HasAdmin requester db.tables now found active id existing f ends a g;
  }

-- No request takes the last active super admin away, whoever makes it and whatever it asks for.
pub handle-Governed :
    (l : Library) (h : Hashing) (db : Database) (header : Text) (now : Time) (r : UserRequest)
    → Governed db.tables
    → Governed (handle l h db header now r).0.tables
handle-Governed l h db header now r g = elim (handle-Outcome l h db header now r) [
  | inl e ↦ subst (λ x. Governed x.0.tables) (sym e) g
  | inr (requester, e, o) ↦
      Outcome-Governed requester db now
        (authenticate_token-user_at l db.tables header now requester e)
        (authenticate_token-is_active l db.tables header now requester e) o g
]
