-- ===== src/Accounts/Moves.antt =====
-- Logins, logouts and requests on the users in any order, one after the other.
use mathlib.Core.Path.{subst}
use lidar_dashboard.Prelude.{
  ℕ, suc, ◌≤◌, ◌≡◌, sym, inl, inr, Bool, true, false, [], ◌∷◌, arith, Option-cases, if◌then◌else◌,
}
use lidar_dashboard.Prelude.Text.{Text}
use lidar_dashboard.Prelude.Tables.{find_by-append}
use lidar_dashboard.Auth.Model.{Key, Time, User, Tables, Library}
use lidar_dashboard.Auth.Sessions.{has_id}
use lidar_dashboard.Auth.LoggedOut.{Step}
use lidar_dashboard.Auth.SessionEnd.{
  user_at, Newer, Newer-refl, Newer-trans, update-Newer, Step-Newer,
}
use lidar_dashboard.Accounts.Model.{Database}
use lidar_dashboard.Accounts.Reply.{Reply}
use lidar_dashboard.Accounts.Passwords.{Hashing}
use lidar_dashboard.Accounts.Routes.{Body, UserRequest, handle}
use lidar_dashboard.Accounts.Outcome.{with_user_added, Outcome, refused, read, added, altered}
use lidar_dashboard.Accounts.Refines.{handle-Outcome}

pub data Move (l : Library) (h : Hashing) : Database → Database → Type 0 where
  by_session :
      {db : Database} {after : Tables}
      → Step l db.tables after
      → Move l h db (record db { tables = after })
  by_request :
      {db : Database} (header : Text) (now : Time) (r : UserRequest)
      → Move l h db (handle l h db header now r).0

pub data Moves (l : Library) (h : Hashing) : Database → Database → Type 0 where
  stop : {db : Database} → Moves l h db db
  move : {a b c : Database} → Move l h a b → Moves l h b c → Moves l h a c

-- A row that is there is still there when a user is added.
added-Newer :
    (i : Key) (db : Tables) (u : User) → Newer (user_at i db) (user_at i (with_user_added db u))
added-Newer i db u = elim (Option-cases (user_at i db)) [
  | inl e ↦ rw e tt
  | inr (v, e) ↦ rw (e, find_by-append (has_id i) db.users (u ∷ []) v e) (omega arith)
]

either_le : (ends : Bool) (m n : ℕ) → n ≡ (if ends then suc m else m) → m ≤ n
either_le true m n e = omega (arith, e)
either_le false m n e = omega (arith, e)

pub Outcome-Newer :
    {requester : User} {db : Database} {now : Time} {after : Database} {reply : Reply Body}
    (i : Key)
    → Outcome requester db now after reply
    → Newer (user_at i db.tables) (user_at i after.tables)
Outcome-Newer {db} i (refused n) = Newer-refl (user_at i db.tables)
Outcome-Newer {db} i (read b) = Newer-refl (user_at i db.tables)
Outcome-Newer {db} i (added u log b may role apart by) = added-Newer i db.tables u
Outcome-Newer {db} i (altered id existing f ends log b a by) =
    update-Newer i (has_id id) f db.tables.users a.same_id
      (λ u. either_le ends u.session_version (f u).session_version (a.version u))

handle-Newer :
    (l : Library) (h : Hashing) (db : Database) (header : Text) (now : Time) (r : UserRequest)
    (i : Key)
    → Newer (user_at i db.tables) (user_at i (handle l h db header now r).0.tables)
handle-Newer l h db header now r i = elim (handle-Outcome l h db header now r) [
  | inl e ↦
      subst (λ x. Newer (user_at i db.tables) (user_at i x.0.tables)) (sym e)
        (Newer-refl (user_at i db.tables))
  | inr (requester, e, o) ↦ Outcome-Newer i o
]

-- The version of a user's sessions never falls, and the row stays.
pub Moves-Newer :
    {l : Library} {h : Hashing} {a b : Database} (i : Key)
    → Moves l h a b
    → Newer (user_at i a.tables) (user_at i b.tables)
Moves-Newer {a} i stop = Newer-refl (user_at i a.tables)
Moves-Newer {a} i (move {b} {c} (by_session {after} s) m) =
    Newer-trans (user_at i a.tables) (user_at i after) (user_at i c.tables) (Step-Newer i s)
      (Moves-Newer i m)
Moves-Newer {l} {h} {a} i (move {b} {c} (by_request header now r) m) =
    Newer-trans (user_at i a.tables) (user_at i b.tables) (user_at i c.tables)
      (handle-Newer l h a header now r i) (Moves-Newer i m)
