-- ===== src/Auth/Sessions.antt =====
-- `login`, `refreshAccessToken` and `logout` of dashboard/server/src/domains/auth/auth.service.js,
-- and `authenticateToken` of middlewares/auth.middleware.js. Each runs to its end before the next.
use lidar_dashboard.Prelude.{
  ℕ, suc, ◌+◌, ◌*◌, Bool, true, false, not, ◌&&◌, ◌||◌, Option, none, some, List, [], ◌∷◌, ◌++◌,
  ltb, ◌==◌, if◌then◌else◌, drop,
}
use lidar_dashboard.Prelude.Text.{Text, codes, text_eq, trim, to_lower}
use lidar_dashboard.Prelude.Tables.{find_by, update_by, count_by, any_by}
use lidar_dashboard.Auth.Model.{
  Key, Time, User, RefreshToken, Tables, jwt_secret, jwt_refresh_secret, Claims, Library,
}

abbrev pub is_blank : Text → Bool
is_blank [] = true
is_blank (c ∷ cs) = false

-- 7 days and one hour, in seconds.
abbrev pub refresh_token_expires_in : ℕ
refresh_token_expires_in = 7 * 24 * 60 * 60

abbrev pub access_token_expires_in : ℕ
access_token_expires_in = 60 * 60

abbrev pub named : Text → User → Bool
named user_id u = text_eq u.user_id user_id

abbrev pub has_id : Key → User → Bool
has_id i u = u.id == i

abbrev pub is_live : Option Time → Bool
is_live none = true
is_live (some t) = false

-- `revokedAt: null`, of a user or of a hash.
abbrev pub live_of : Key → RefreshToken → Bool
live_of i t = t.user_id == i && is_live t.revoked_at

abbrev pub hashed : Text → RefreshToken → Bool
hashed h t = text_eq t.token_hash h

abbrev pub live_with : Text → RefreshToken → Bool
live_with h t = hashed h t && is_live t.revoked_at

abbrev pub revoked : Time → RefreshToken → RefreshToken
revoked at t = record t { revoked_at = some at }

abbrev pub access_claims : User → Claims
access_claims u = record {
  type = none;
  id = some u.id;
  user_id = some u.user_id;
  role = some u.role;
  session_version = some u.session_version;
  jti = none;
  exp = none;
}

unfoldable pub create_access_token : Library → User → Time → Text
create_access_token l u now = l.sign jwt_secret (access_claims u) now access_token_expires_in

abbrev pub refresh_claims : User → Text → Claims
refresh_claims u jti = record {
  type = none;
  id = some u.id;
  user_id = none;
  role = none;
  session_version = none;
  jti = some jti;
  exp = none;
}

pub record LoginAnswer : Type 0 where
  pub access_token : Text
  pub refresh_token : Text
  pub id : Key
  pub user_id : Text
  pub name : Text
  pub role : Text

-- `refused` is the 401 of `INVALID_LOGIN_MESSAGE`; `conflict` is the database's refusal of a token
-- hash that is there already, which undoes the transaction.
pub data LoginResult : Type 0 where
  signed_in : LoginAnswer → LoginResult
  refused conflict : LoginResult

-- The user's row after the login.
abbrev pub logged_in : Time → User → User
logged_in now u = record u { last_login_at = some now; session_version = suc u.session_version }

abbrev pub new_token : User → Text → Time → RefreshToken
new_token u hash now = record {
  user_id = u.id;
  token_hash = hash;
  expires_at = now + refresh_token_expires_in * 1000;
  revoked_at = none;
}

-- The login of a user whose password matched.
unfoldable pub sign_in : Library → Tables → User → (jti : Text) → Time → Tables × LoginResult
sign_in l db u jti now =
    let refresh = l.sign jwt_refresh_secret (refresh_claims u jti) now refresh_token_expires_in in
    let hash = l.sha256 refresh in
    if any_by (hashed hash) db.refresh_tokens then (db, conflict) else (
      record {
        users = update_by (has_id u.id) (logged_in now) db.users;
        refresh_tokens =
            update_by (live_of u.id) (revoked now) db.refresh_tokens ++ new_token u hash now ∷ [];
      },
      signed_in (record {
        access_token = create_access_token l (logged_in now u) now;
        refresh_token = refresh;
        id = u.id;
        user_id = u.user_id;
        name = u.name;
        role = to_lower u.role;
      }),
    )

-- The user that a name and a password belong to: the guards of `login`.
unfoldable pub check_credentials : Library → Tables → (user_id password : Text) → Option User
check_credentials l db user_id password =
    if is_blank user_id || is_blank password
    then none
    else elim (find_by (named user_id) db.users) [
      | none ↦ none
      | some u ↦
          if not u.is_active
          then none
          else if not (l.compare_password password u.password_hash)
          then none
          else some u
    ]

unfoldable pub login :
    Library → Tables → (user_id password jti : Text) → Time → Tables × LoginResult
login l db user_id password jti now = elim (check_credentials l db user_id password) [
  | none ↦ (db, refused)
  | some u ↦ sign_in l db u jti now
]

abbrev pub usable : Text → Time → RefreshToken → Bool
usable hash now t = live_with hash t && ltb now t.expires_at

-- An access token for the user of a stored refresh token.
abbrev access_for : Library → Time → Option User → Option Text
access_for l now none = none
access_for l now (some u) = if u.is_active then some (create_access_token l u now) else none

-- `none` is the 401 of `INVALID_REFRESH_TOKEN_MESSAGE`.
unfoldable pub refresh_access_token : Library → Tables → (refresh_token : Text) → Time → Option Text
refresh_access_token l db refresh now =
    if is_blank refresh then none else elim (l.verify jwt_refresh_secret now refresh) [
      | none ↦ none
      | some claims ↦ elim (find_by (usable (l.sha256 refresh) now) db.refresh_tokens) [
        | none ↦ none
        | some t ↦ access_for l now (find_by (has_id t.user_id) db.users)
      ]
    ]

abbrev pub next_session : User → User
next_session u = record u { session_version = suc u.session_version }

-- `decoded?.id`.
abbrev pub decoded_id : Option Claims → Option Key
decoded_id none = none
decoded_id (some c) = c.id

abbrev pub end_session : Option Key → ℕ → List User → List User
end_session none n users = users
end_session (some i) n users = if ltb 0 n then update_by (has_id i) next_session users else users

unfoldable pub logout : Library → Tables → (refresh_token : Text) → Time → Tables
logout l db refresh now = if is_blank refresh then db else record {
  users =
      end_session (decoded_id (l.verify jwt_refresh_secret now refresh))
        (count_by (live_with (l.sha256 refresh)) db.refresh_tokens) db.users;
  refresh_tokens = update_by (live_with (l.sha256 refresh)) (revoked now) db.refresh_tokens;
}

-- The token of an `authorization` header: the part after "Bearer ", not empty.
abbrev pub some_text : Text → Option Text
some_text [] = none
some_text (c ∷ cs) = some (c ∷ cs)

abbrev starts_with : Text → Text → Bool
starts_with [] t = true
starts_with (c ∷ cs) [] = false
starts_with (c ∷ cs) (d ∷ ds) = c == d && starts_with cs ds

unfoldable pub bearer_token : Text → Option Text
bearer_token header =
    if starts_with (codes "Bearer ") header then some_text (trim (drop 7 header)) else none

abbrev pub same_version : Option ℕ → ℕ → Bool
same_version none n = false
same_version (some m) n = m == n

abbrev pub find_user : Option Key → Tables → Option User
find_user none db = none
find_user (some i) db = find_by (has_id i) db.users

-- The user that claims still stand for.
unfoldable pub claimed_user : Tables → Claims → Option User
claimed_user db c = elim (find_user c.id db) [
  | none ↦ none
  | some u ↦
      if u.is_active && same_version c.session_version u.session_version then some u else none
]

-- `authenticateToken`; `none` is the 401.
unfoldable pub authenticate_token : Library → Tables → Text → Time → Option User
authenticate_token l db header now = elim (bearer_token header) [
  | none ↦ none
  | some token ↦ elim (l.verify jwt_secret now token) [ none ↦ none | some c ↦ claimed_user db c ]
]
