-- ===== src/Auth/Refresh.antt =====
-- The refresh token that a login hands out works until it expires.
use mathlib.Core.Path.{subst}
use lidar_dashboard.Prelude.{
  ◌+◌, ◌*◌, ◌/◌, ◌<◌, ◌≡◌, refl, sym, ap, ◌∙◌, inl, inr, Bool, true, false, some, List, [], ◌∷◌,
  ◌++◌, arith, lt→ltb, Bool-cases, Option-cases,
}
use lidar_dashboard.Prelude.Text.{Text, text_eq, text_eq_refl}
use lidar_dashboard.Prelude.Tables.{find_by, update_by, any_by}
use lidar_dashboard.Auth.Model.{
  Time, User, RefreshToken, Tables, jwt_refresh_secret, Library, Lawful,
}
use lidar_dashboard.Auth.Sessions.{
  is_blank, live_of, hashed, revoked, new_token, refresh_claims, create_access_token, LoginAnswer,
  signed_in, sign_in, check_credentials, login, usable, refresh_access_token, logged_in,
  refresh_token_expires_in,
}
use lidar_dashboard.Auth.SessionEnd.{user_at}
use lidar_dashboard.Auth.ClaimedUser.{login-user_at}

-- A row at the end is found where no row before it has its hash.
find_by-last :
    (hash : Text) (now : Time) (p : RefreshToken → Bool) (at : Time) (ts : List RefreshToken)
    (t : RefreshToken)
    → any_by (hashed hash) ts ≡ false
    → usable hash now t ≡ true
    → find_by (usable hash now) (update_by p (revoked at) ts ++ t ∷ []) ≡ some t
unfolding find_by update_by any_by
find_by-last hash now p at [] t h k = rw k refl
find_by-last hash now p at (x ∷ ts) t h k = elim (Bool-cases (text_eq x.token_hash hash)) [
  | inl e ↦ absurd (ground arith)
  | inr e ↦ elim (Bool-cases (p x)) [
    | inl m ↦ rw (m, e) (find_by-last hash now p at ts t (rw e at h) k)
    | inr m ↦ rw (m, e) (find_by-last hash now p at ts t (rw e at h) k)
  ]
]

is_blank-sign : (t : Text) → ¬ (t ≡ []) → is_blank t ≡ false
is_blank-sign [] h = absurd (h refl)
is_blank-sign (c ∷ cs) h = refl

-- What a login that succeeded stored and answered.
record SignedIn (l : Library) (db after : Tables) (at : Time) (a : LoginAnswer) : Type 0 where
  pub user : User
  pub jti : Text
  pub same : user.id ≡ a.id
  pub answered :
      a.refresh_token
      ≡ l.sign jwt_refresh_secret (refresh_claims user jti) at refresh_token_expires_in
  pub unused : any_by (hashed (l.sha256 a.refresh_token)) db.refresh_tokens ≡ false
  pub stored :
      after.refresh_tokens
      ≡ update_by (live_of user.id) (revoked at) db.refresh_tokens
        ++ new_token user (l.sha256 a.refresh_token) at ∷ []

sign_in-SignedIn :
    (l : Library) (db : Tables) (u : User) (jti : Text) (at : Time) (a : LoginAnswer)
    → (sign_in l db u jti at).1 ≡ signed_in a
    → SignedIn l db (sign_in l db u jti at).0 at a
unfolding sign_in
sign_in-SignedIn l db u jti at a h =
    let token = l.sign jwt_refresh_secret (refresh_claims u jti) at refresh_token_expires_in in
    elim (Bool-cases (any_by (hashed (l.sha256 token)) db.refresh_tokens)) [
      | inl e ↦ (let j = rw (e, sign_in) at h in absurd (cc))
      | inr e ↦
          let j = rw (e, sign_in) at h in
          let answered : a.refresh_token ≡ token = cc in
          record {
            user = u;
            jti = jti;
            same = cc;
            answered = answered;
            unused =
                subst (λ t. any_by (hashed (l.sha256 t)) db.refresh_tokens ≡ false) (sym answered)
                  e;
            stored = rw (e, sign_in, answered) refl;
          }
    ]

login-SignedIn :
    (l : Library) (db : Tables) (user_id password jti : Text) (at : Time) (a : LoginAnswer)
    → (login l db user_id password jti at).1 ≡ signed_in a
    → SignedIn l db (login l db user_id password jti at).0 at a
unfolding login
login-SignedIn l db user_id password jti at a h =
    elim (Option-cases (check_credentials l db user_id password)) [
      | inl e ↦ (let j = rw (e, login) at h in absurd (cc))
      | inr (v, e) ↦ rw (e, login) (sign_in-SignedIn l db v jti at a (rw (e, login) at h))
    ]

-- The refresh token that a login hands out gives the user, where active, an access token of the
-- new session at every time before the token expires, where signed tokens are accepted until they
-- expire.
pub login-refresh_access_token :
    (l : Library) (lawful : Lawful l) (db : Tables) (user_id password jti : Text) (at now : Time)
    (a : LoginAnswer) (u : User)
    → (login l db user_id password jti at).1 ≡ signed_in a
    → user_at a.id db ≡ some u
    → u.is_active ≡ true
    → now / 1000 < at / 1000 + refresh_token_expires_in
    → refresh_access_token l (login l db user_id password jti at).0 a.refresh_token now
      ≡ some (create_access_token l (logged_in at u) now)
unfolding refresh_access_token
login-refresh_access_token l lawful db user_id password jti at now a u h k active early =
    let after = (login l db user_id password jti at).0 in
    let si = login-SignedIn l db user_id password jti at a h in
    let given = is_blank-sign a.refresh_token (
      subst (λ t. ¬ (t ≡ [])) (sym si.answered)
        (lawful.sign_some jwt_refresh_secret (refresh_claims si.user si.jti) at
          refresh_token_expires_in)) in
    let (d, accepted) =
      lawful.verify_sign jwt_refresh_secret (refresh_claims si.user si.jti) at
        refresh_token_expires_in now early in
    let said = subst (λ t. l.verify jwt_refresh_secret now t ≡ some d) (sym si.answered) accepted in
    let hash = l.sha256 a.refresh_token in
    let found : find_by (usable hash now) after.refresh_tokens ≡ some (new_token si.user hash at) =
      ap (find_by (usable hash now)) si.stored
      ∙ find_by-last hash now (live_of si.user.id) at db.refresh_tokens (new_token si.user hash at)
          si.unused
          (rw (text_eq_refl hash)
            (lt→ltb now (at + refresh_token_expires_in * 1000) (omega arith))) in
    let row : user_at si.user.id after ≡ some (logged_in at u) =
      subst (λ i. user_at i after ≡ some (logged_in at u)) (sym si.same)
        (login-user_at l db user_id password jti at a u h k) in
    rw (given, said, found, row, active, refresh_access_token) refl
