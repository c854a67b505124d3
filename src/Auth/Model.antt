-- ===== src/Auth/Model.antt =====
-- The data of dashboard/server/src/domains/auth/auth.service.js: the rows of the users and of the
-- refresh tokens, the claims of a signed token, and the calls of the libraries jsonwebtoken and
-- bcrypt and of node's crypto, which are parameters. Times are milliseconds, `exp` is in seconds.
use lidar_dashboard.Prelude.{ℕ, ◌+◌, ◌/◌, ◌<◌, ◌≡◌, Bool, Option, some, List, []}
use lidar_dashboard.Prelude.Text.{Text}

abbrev pub Key : Type 0
Key = ℕ

abbrev pub Time : Type 0
Time = ℕ

pub record User : Type 0 where
  pub id : Key
  pub user_id : Text
  pub name : Text
  pub role : Text
  pub password_hash : Text
  pub is_active : Bool
  pub session_version : ℕ
  pub email : Option Text
  pub phone_number : Option Text
  pub last_login_at : Option Time

pub record RefreshToken : Type 0 where
  pub user_id : Key
  pub token_hash : Text
  pub expires_at : Time
  pub revoked_at : Option Time

pub record Tables : Type 0 where
  pub users : List User
  pub refresh_tokens : List RefreshToken

pub data Secret : Type 0 where
  jwt_secret jwt_refresh_secret : Secret

-- What a token says. A claim that is missing or empty, or has a wrong type, is `none`.
pub record Claims : Type 0 where
  pub type : Option Text
  pub id : Option Key
  pub user_id : Option Text
  pub role : Option Text
  pub session_version : Option ℕ
  pub jti : Option Text
  pub exp : Option ℕ

-- `sign` takes the claims, the time and the lifetime in seconds; `verify` gives nothing where the
-- library throws.
pub record Library : Type 0 where
  pub sign : Secret → Claims → Time → ℕ → Text
  pub verify : Secret → Time → Text → Option Claims
  pub compare_password : (password hash : Text) → Bool
  pub sha256 : Text → Text

-- What jsonwebtoken promises: a signed token is accepted until it expires and is not empty, and a
-- token says the same whenever it is accepted.
pub record Lawful (l : Library) : Type 0 where
  pub verify_sign :
      (s : Secret) (c : Claims) (at : Time) (life : ℕ) (now : Time)
      → now / 1000 < at / 1000 + life
      → (d : Claims) × (l.verify s now (l.sign s c at life) ≡ some d)
  pub sign_some : (s : Secret) (c : Claims) (at : Time) (life : ℕ) → ¬ (l.sign s c at life ≡ [])
  pub verify_stable :
      (s : Secret) (at now : Time) (token : Text) (c d : Claims)
      → l.verify s at token ≡ some c
      → l.verify s now token ≡ some d
      → d ≡ c

-- No token is accepted from the second on at which it expires.
abbrev pub Unexpired : Library → Type 0
Unexpired l =
    (s : Secret) (now : Time) (token : Text) (c : Claims) (e : ℕ)
    → l.verify s now token ≡ some c
    → c.exp ≡ some e
    → now / 1000 < e
