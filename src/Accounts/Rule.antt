-- ===== src/Accounts/Rule.antt =====
-- Over any time, somebody can manage the users.
use mathlib.Core.Path.{subst}
use lidar_dashboard.Prelude.{
  ℕ, ◌≡◌, refl, sym, ap, ◌∙◌, inl, inr, Option, none, some, ◌==◌, ltb, Bool-cases, Option-cases,
  if◌then◌else◌,
}
use lidar_dashboard.Prelude.Text.{Text}
use lidar_dashboard.Prelude.Tables.{
  All, find_by, All-update_by, any_by, update_by, count_by, find_by-update_by,
}
use lidar_dashboard.Auth.Model.{Key, Time, User, Tables, Library, jwt_refresh_secret}
use lidar_dashboard.Auth.Sessions.{
  is_blank, has_id, hashed, live_with, refresh_claims, refresh_token_expires_in, sign_in,
  check_credentials, login, logout, logged_in, next_session, end_session, decoded_id,
}
use lidar_dashboard.Auth.LoggedOut.{Step, by_login, by_logout}
use lidar_dashboard.Auth.SessionEnd.{user_at}
use lidar_dashboard.Accounts.Model.{Database}
use lidar_dashboard.Accounts.Passwords.{Hashing}
use lidar_dashboard.Accounts.Checks.{IsAllowed}
use lidar_dashboard.Accounts.Governed.{Governed, handle-Governed}
use lidar_dashboard.Accounts.Moves.{by_session, by_request, Moves, stop, move}

-- An update that leaves the id, the role and the active status of every row.
record Keeps (f : User → User) : Type 0 where
  pub id : (u : User) → (f u).id ≡ u.id
  pub role : (u : User) → (f u).role ≡ u.role
  pub is_active : (u : User) → (f u).is_active ≡ u.is_active

Keeps-Governed :
    (db : Tables) (i : Key) (f : User → User) (after : Tables)
    → Keeps f
    → after.users ≡ update_by (has_id i) f db.users
    → Governed db
    → Governed after
Keeps-Governed db i f after k e g =
    let (j, u, at, on, role) = g.admin in
    let found : user_at j after ≡ some (if has_id i u then f u else u) =
      ap (λ x. find_by (has_id j) x) e
      ∙ find_by-update_by (has_id j) (has_id i) f db.users (λ v. ap (λ n. n == j) (k.id v))
      ∙ rw at refl in
    record {
      allowed = rw e (
          All-update_by (λ u. IsAllowed u.role) (has_id i) f db.users
            (λ u h. subst IsAllowed (sym (k.role u)) h) g.allowed);
      admin = elim (Bool-cases (has_id i u)) [
        | inl m ↦ (j, f u, found ∙ rw m refl, k.is_active u ∙ on, k.role u ∙ role)
        | inr m ↦ (j, u, found ∙ rw m refl, on, role)
      ];
    }

logged_in-Keeps : (now : Time) → Keeps (logged_in now)
logged_in-Keeps now = record { id = λ u. refl; role = λ u. refl; is_active = λ u. refl }

next_session-Keeps : Keeps next_session
next_session-Keeps = record { id = λ u. refl; role = λ u. refl; is_active = λ u. refl }

same_users : (db after : Tables) → after.users ≡ db.users → Governed db → Governed after
same_users db after e g =
    let (j, u, at, on, role) = g.admin in
    record {
      allowed = subst (All (λ u. IsAllowed u.role)) (sym e) g.allowed;
      admin = (j, u, ap (λ x. find_by (has_id j) x) e ∙ at, on, role);
    }

sign_in-Governed :
    (l : Library) (db : Tables) (u : User) (jti : Text) (now : Time)
    → Governed db
    → Governed (sign_in l db u jti now).0
unfolding sign_in
sign_in-Governed l db u jti now g =
    let hash =
      l.sha256 (l.sign jwt_refresh_secret (refresh_claims u jti) now refresh_token_expires_in) in
    elim (Bool-cases (any_by (hashed hash) db.refresh_tokens)) [
      | inl e ↦ rw (e, sign_in) g
      | inr e ↦
          rw (e, sign_in) (Keeps-Governed db u.id (logged_in now) _ (logged_in-Keeps now) refl g)
    ]

ended-Governed :
    (o : Option Key) (n : ℕ) (db after : Tables)
    → after.users ≡ end_session o n db.users
    → Governed db
    → Governed after
ended-Governed none n db after e g = same_users db after e g
ended-Governed (some i) n db after e g = elim (Bool-cases (ltb 0 n)) [
  | inl k ↦ Keeps-Governed db i next_session after next_session-Keeps (e ∙ rw k refl) g
  | inr k ↦ same_users db after (e ∙ rw k refl) g
]

Step-Governed : {l : Library} {a b : Tables} → Step l a b → Governed a → Governed b
unfolding login logout
Step-Governed {l = l} {a = a} (by_login user_id password jti now) g =
    elim (Option-cases (check_credentials l a user_id password)) [
      | inl e ↦ rw (e, login) g
      | inr (u, e) ↦ rw (e, login) (sign_in-Governed l a u jti now g)
    ]
Step-Governed {l = l} {a = a} (by_logout token now) g = elim (Bool-cases (is_blank token)) [
  | inl e ↦ rw (e, logout) g
  | inr e ↦
      rw (e, logout)
        (ended-Governed (decoded_id (l.verify jwt_refresh_secret now token))
          (count_by (live_with (l.sha256 token)) a.refresh_tokens) a _ refl g)
]

-- Where each user has one of the two roles and an active user is a super admin, this stays so over
-- all logins, logouts and requests on the users, refused ones included.
pub Moves-Governed :
    {l : Library} {h : Hashing} {a b : Database}
    → Moves l h a b
    → Governed a.tables
    → Governed b.tables
Moves-Governed stop g = g
Moves-Governed (move (by_session s) m) g = Moves-Governed m (Step-Governed s g)
Moves-Governed {l} {h} {a} (move (by_request header now r) m) g =
    Moves-Governed m (handle-Governed l h a header now r g)
