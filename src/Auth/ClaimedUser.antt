-- ===== src/Auth/ClaimedUser.antt =====
-- The end of the access tokens of a user at a login.
use mathlib.Core.Path.{subst}
use lidar_dashboard.Prelude.{
  ℕ, ◌<◌, ◌≡◌, refl, sym, ap, ◌∙◌, inl, inr, true, ◌&&◌, Option, none, some, arith, Bool-cases,
  Option-cases,
}
use lidar_dashboard.Prelude.Text.{Text}
use lidar_dashboard.Prelude.Tables.{any_by, find_by-update_by, find_by_passes}
use lidar_dashboard.Auth.Model.{
  Key, Time, User, Tables, jwt_secret, jwt_refresh_secret, Claims, Library, Lawful,
}
use lidar_dashboard.Auth.Sessions.{
  hashed, refresh_claims, LoginAnswer, signed_in, sign_in, check_credentials, login, logged_in,
  has_id, refresh_token_expires_in, same_version, claimed_user, bearer_token, authenticate_token,
}
use lidar_dashboard.Auth.LoggedOut.{Reach}
use lidar_dashboard.Auth.SessionEnd.{Newer, Reach-Newer, outdated, user_at}

-- The user that claims stand for has their id and their version.
pub record Claimed (db : Tables) (c : Claims) (u : User) : Type 0 where
  pub id : c.id ≡ some u.id
  pub found : user_at u.id db ≡ some u
  pub version : c.session_version ≡ some u.session_version
  pub active : u.is_active ≡ true

same_version→≡ : (o : Option ℕ) (n : ℕ) → same_version o n ≡ true → o ≡ some n
same_version→≡ none n h = absurd (cc)
same_version→≡ (some m) n h = ap some (ground arith)

Claimed-of_found :
    (db : Tables) (c : Claims) (i : Key) (u : User)
    → c.id ≡ some i
    → user_at i db ≡ some u
    → u.is_active && same_version c.session_version u.session_version ≡ true
    → Claimed db c u
Claimed-of_found db c i u e k m =
    let same : u.id ≡ i = ground (arith, find_by_passes (has_id i) db.users u k) in
    record {
      id = e ∙ ap some (sym same);
      found = subst (λ j. user_at j db ≡ some u) (sym same) k;
      version = same_version→≡ c.session_version u.session_version (ground arith);
      active = ground arith;
    }

some_injective : {u v : User} → some u ≡ some v → u ≡ v
some_injective h = cc

pub claimed_user-Claimed :
    (db : Tables) (c : Claims) (u : User) → claimed_user db c ≡ some u → Claimed db c u
unfolding claimed_user
claimed_user-Claimed db c u h = elim (Option-cases c.id) [
  | inl e ↦ (let j = rw (e, claimed_user) at h in absurd (cc))
  | inr (i, e) ↦ elim (Option-cases (user_at i db)) [
    | inl k ↦ (let j = rw (e, k, claimed_user) at h in absurd (cc))
    | inr (v, k) ↦
        elim (Bool-cases (v.is_active && same_version c.session_version v.session_version)) [
          | inr m ↦ (let j = rw (e, k, m, claimed_user) at h in absurd (cc))
          | inl m ↦
              (let j = rw (e, k, m, claimed_user) at h in
                subst (Claimed db c) (some_injective j) (Claimed-of_found db c i v e k m))
        ]
  ]
]

-- Where the row of the user is newer than before, the claims that stood for it stand for nobody from then on.
pub Reach-outdated :
    (l : Library) (before after later : Tables) (c : Claims) (u v : User)
    → claimed_user before c ≡ some u
    → user_at u.id after ≡ some v
    → u.session_version < v.session_version
    → Reach l after later
    → claimed_user later c ≡ none
Reach-outdated l before after later c u v h k lt r =
    let claimed = claimed_user-Claimed before c u h in
    let newer : Newer (some v) (user_at u.id later) =
      subst (λ o. Newer o (user_at u.id later)) k (Reach-Newer u.id r) in
    outdated later c u.id u.session_version claimed.id claimed.version
      (λ w e. let older = subst (Newer (some v)) e newer in omega arith)

-- The user's row after a login that succeeded.
sign_in-user_at :
    (l : Library) (db : Tables) (v : User) (jti : Text) (now : Time) (a : LoginAnswer) (u : User)
    → (sign_in l db v jti now).1 ≡ signed_in a
    → user_at a.id db ≡ some u
    → user_at a.id (sign_in l db v jti now).0 ≡ some (logged_in now u)
unfolding sign_in
sign_in-user_at l db v jti now a u h k =
    let hash =
      l.sha256 (l.sign jwt_refresh_secret (refresh_claims v jti) now refresh_token_expires_in) in
    elim (Bool-cases (any_by (hashed hash) db.refresh_tokens)) [
      | inl e ↦ (let j = rw (e, sign_in) at h in absurd (cc))
      | inr e ↦
          let j = rw (e, sign_in) at h in
          let same : v.id ≡ a.id = cc in
          let passes : has_id v.id u ≡ true =
            ground (arith, find_by_passes (has_id a.id) db.users u k) in
          rw (e, sign_in)
            (find_by-update_by (has_id a.id) (has_id v.id) (logged_in now) db.users (λ x. refl)
              ∙ rw (k, passes) refl)
    ]

pub login-user_at :
    (l : Library) (db : Tables) (user_id password jti : Text) (now : Time) (a : LoginAnswer)
    (u : User)
    → (login l db user_id password jti now).1 ≡ signed_in a
    → user_at a.id db ≡ some u
    → user_at a.id (login l db user_id password jti now).0 ≡ some (logged_in now u)
unfolding login
login-user_at l db user_id password jti now a u h k =
    elim (Option-cases (check_credentials l db user_id password)) [
      | inl e ↦ (let j = rw (e, login) at h in absurd (cc))
      | inr (v, e) ↦ rw (e, login) (sign_in-user_at l db v jti now a u (rw (e, login) at h) k)
    ]

-- The claims of a header that is let through.
pub authenticate_token-claims :
    (l : Library) (db : Tables) (header : Text) (now : Time) (u : User)
    → authenticate_token l db header now ≡ some u
    → (token : Text) × (c : Claims) × (bearer_token header ≡ some token)
      × (l.verify jwt_secret now token ≡ some c)
      × (claimed_user db c ≡ some u)
unfolding authenticate_token
authenticate_token-claims l db header now u h = elim (Option-cases (bearer_token header)) [
  | inl e ↦ (let j = rw (e, authenticate_token) at h in absurd (cc))
  | inr (token, e) ↦ elim (Option-cases (l.verify jwt_secret now token)) [
    | inl k ↦ (let j = rw (e, k, authenticate_token) at h in absurd (cc))
    | inr (c, k) ↦ (token, c, e, k, rw (e, k, authenticate_token) at h)
  ]
]

-- A header whose claims stand for nobody.
pub authenticate_token-none :
    (l : Library) (lawful : Lawful l) (db : Tables) (header token : Text) (at now : Time)
    (c : Claims)
    → bearer_token header ≡ some token
    → l.verify jwt_secret at token ≡ some c
    → claimed_user db c ≡ none
    → authenticate_token l db header now ≡ none
unfolding authenticate_token
authenticate_token-none l lawful db header token at now c e k h =
    elim (Option-cases (l.verify jwt_secret now token)) [
      | inl m ↦ rw (e, m, authenticate_token) refl
      | inr (d, m) ↦
          rw (e, m, authenticate_token, lawful.verify_stable jwt_secret at now token c d k m) h
    ]

-- A login ends the user's older access tokens: a header that was let through for the user before
-- is refused from then on, whatever logins and logouts follow, where a token says the same whenever
-- it is accepted.
pub login-authenticate_token :
    (l : Library) (lawful : Lawful l) (db later : Tables) (header user_id password jti : Text)
    (at login_at now : Time) (u : User) (a : LoginAnswer)
    → authenticate_token l db header at ≡ some u
    → (login l db user_id password jti login_at).1 ≡ signed_in a
    → a.id ≡ u.id
    → Reach l (login l db user_id password jti login_at).0 later
    → authenticate_token l later header now ≡ none
login-authenticate_token l lawful db later header user_id password jti at login_at now u a h k same
      r =
    let (token, c, e, m, claimed) = authenticate_token-claims l db header at u h in
    let after = (login l db user_id password jti login_at).0 in
    let found = (claimed_user-Claimed db c u claimed).found in
    let row : user_at u.id after ≡ some (logged_in login_at u) =
      subst (λ i. user_at i after ≡ some (logged_in login_at u)) same
        (login-user_at l db user_id password jti login_at a u k
          (subst (λ i. user_at i db ≡ some u) (sym same) found)) in
    authenticate_token-none l lawful later header token at now c e m
      (Reach-outdated l db after later c u (logged_in login_at u) claimed row (omega arith) r)
