-- ===== src/Accounts/Rows.antt =====
-- The row of a user after an outcome.
use lidar_dashboard.Prelude.{◌≡◌, refl, ap, ◌∙◌, Bool, true, false, some, ◌==◌, arith}
use lidar_dashboard.Prelude.Tables.{find_by-update_by, find_by_passes}
use lidar_dashboard.Auth.Model.{Key, Time, User, Tables, Library}
use lidar_dashboard.Prelude.Text.{Text}
use lidar_dashboard.Auth.Sessions.{has_id, authenticate_token}
use lidar_dashboard.Auth.SessionEnd.{user_at}
use lidar_dashboard.Auth.ClaimedUser.{claimed_user-Claimed, authenticate_token-claims}
use lidar_dashboard.Accounts.Outcome.{with_user_altered}

pub found_id : (db : Tables) (id : Key) (u : User) → user_at id db ≡ some u → u.id ≡ id
found_id db id u e = ground (arith, find_by_passes (has_id id) db.users u e)

module _ (db : Tables) (id : Key) (f : User → User) (ends : Bool) (now : Time)
    (same : (u : User) → (f u).id ≡ u.id) where
  -- The altered row.
  pub user_at-altered :
      (u : User)
      → user_at id db ≡ some u
      → user_at id (with_user_altered db id f ends now) ≡ some (f u)
  user_at-altered u e =
      find_by-update_by (has_id id) (has_id id) f db.users (λ v. ap (λ n. n == id) (same v))
      ∙ rw (e, find_by_passes (has_id id) db.users u e) refl

  -- And the other rows.
  pub user_at-other :
      (i : Key) (u : User)
      → user_at i db ≡ some u
      → (u.id == id) ≡ false
      → user_at i (with_user_altered db id f ends now) ≡ some u
  user_at-other i u e apart =
      find_by-update_by (has_id i) (has_id id) f db.users (λ v. ap (λ n. n == i) (same v))
      ∙ rw (e, apart) refl

-- A user who is let in has a row, and it is active.
pub authenticate_token-user_at :
    (l : Library) (db : Tables) (header : Text) (now : Time) (u : User)
    → authenticate_token l db header now ≡ some u
    → user_at u.id db ≡ some u
authenticate_token-user_at l db header now u h =
    let (token, c, e, m, claimed) = authenticate_token-claims l db header now u h in
    (claimed_user-Claimed db c u claimed).found

pub authenticate_token-is_active :
    (l : Library) (db : Tables) (header : Text) (now : Time) (u : User)
    → authenticate_token l db header now ≡ some u
    → u.is_active ≡ true
authenticate_token-is_active l db header now u h =
    let (token, c, e, m, claimed) = authenticate_token-claims l db header now u h in
    (claimed_user-Claimed db c u claimed).active
