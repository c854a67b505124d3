-- ===== src/Auth/LoggedOut.antt =====
-- A refresh token after a logout, over all logins and logouts that follow.
use mathlib.Core.Path.{subst}
use lidar_dashboard.Prelude.{
  ◌≡◌, refl, ◌∙◌, inl, inr, Bool, true, false, ◌&&◌, none, List, [], ◌∷◌, ◌++◌, arith, Bool-cases,
  Option-cases,
}
use lidar_dashboard.Prelude.Text.{Text, text_eq, text_eq→≡}
use lidar_dashboard.Prelude.Tables.{find_by, update_by, any_by}
use lidar_dashboard.Auth.Model.{Time, User, RefreshToken, Tables, jwt_refresh_secret, Library}
use lidar_dashboard.Auth.Sessions.{
  is_blank, live_of, hashed, live_with, revoked, refresh_claims, sign_in, check_credentials, login,
  refresh_access_token, logout, refresh_token_expires_in,
}
use lidar_dashboard.Auth.RefreshTokens.{IsOut, logout-IsOut, refresh-none, unusable}

-- A login or a logout, with anybody's data.
pub data Step (l : Library) : Tables → Tables → Type 0 where
  by_login :
      {db : Tables} (user_id password jti : Text) (now : Time)
      → Step l db (login l db user_id password jti now).0
  by_logout : {db : Tables} (token : Text) (now : Time) → Step l db (logout l db token now)

pub data Reach (l : Library) : Tables → Tables → Type 0 where
  here : {db : Tables} → Reach l db db
  step : {a b c : Tables} → Step l a b → Reach l b c → Reach l a c

-- A hash that is in the table, in revoked rows alone.
abbrev Spent : Text → Tables → Type 0
Spent hash db = (any_by (hashed hash) db.refresh_tokens ≡ true) × IsOut hash db

module _ (p : RefreshToken → Bool) (f : RefreshToken → RefreshToken) where
  any_by-update_by :
      (q : RefreshToken → Bool) (ts : List RefreshToken)
      → ((t : RefreshToken) → q (f t) ≡ q t)
      → any_by q (update_by p f ts) ≡ any_by q ts
  unfolding any_by update_by
  any_by-update_by q [] h = refl
  any_by-update_by q (t ∷ ts) h = ground (arith, h t, any_by-update_by q ts h)

  find_by-update_by-none :
      (q : RefreshToken → Bool) (ts : List RefreshToken)
      → ((t : RefreshToken) → q (f t) ≡ true → q t ≡ true)
      → find_by q ts ≡ none
      → find_by q (update_by p f ts) ≡ none
  unfolding find_by update_by
  find_by-update_by-none q [] h k = refl
  find_by-update_by-none q (t ∷ ts) h k = ground (arith, h t, find_by-update_by-none q ts h)

any_by-append_some :
    (q : RefreshToken → Bool) (ts us : List RefreshToken)
    → any_by q ts ≡ true
    → any_by q (ts ++ us) ≡ true
unfolding any_by
any_by-append_some q [] us h = absurd (cc)
any_by-append_some q (t ∷ ts) us h = ground (arith, any_by-append_some q ts us)

find_by-append_none :
    (q : RefreshToken → Bool) (ts : List RefreshToken) (u : RefreshToken)
    → find_by q ts ≡ none
    → q u ≡ false
    → find_by q (ts ++ u ∷ []) ≡ none
unfolding find_by
find_by-append_none q [] u h k = rw k refl
find_by-append_none q (t ∷ ts) u h k = ground (arith, find_by-append_none q ts u)

revoked-Spent :
    (hash : Text) (p : RefreshToken → Bool) (now : Time) (ts : List RefreshToken)
    → any_by (hashed hash) ts ≡ true
    → find_by (live_with hash) ts ≡ none
    → (any_by (hashed hash) (update_by p (revoked now) ts) ≡ true)
      × (find_by (live_with hash) (update_by p (revoked now) ts) ≡ none)
revoked-Spent hash p now ts h k = (
  any_by-update_by p (revoked now) (hashed hash) ts (λ t. refl) ∙ h,
  find_by-update_by-none p (revoked now) (live_with hash) ts (λ t e. absurd (ground arith)) k,
)

sign_in-Spent :
    (l : Library) (db : Tables) (u : User) (jti hash : Text) (now : Time)
    → Spent hash db
    → Spent hash (sign_in l db u jti now).0
unfolding sign_in
sign_in-Spent l db u jti hash now (h, k) =
    let new_hash =
      l.sha256 (l.sign jwt_refresh_secret (refresh_claims u jti) now refresh_token_expires_in) in
    elim (Bool-cases (any_by (hashed new_hash) db.refresh_tokens)) [
      | inl e ↦ rw (e, sign_in) (h, k)
      | inr e ↦
          let (there, out) = revoked-Spent hash (live_of u.id) now db.refresh_tokens h k in
          rw (e, sign_in)
            (
              any_by-append_some (hashed hash)
                  (update_by (live_of u.id) (revoked now) db.refresh_tokens) _ there,
              find_by-append_none (live_with hash)
                  (update_by (live_of u.id) (revoked now) db.refresh_tokens) _ out
                  (other new_hash e),
            )
    ]
  where
    other :
        (new_hash : Text)
        → any_by (hashed new_hash) db.refresh_tokens ≡ false
        → (text_eq new_hash hash && true) ≡ false
    other new_hash e = elim (Bool-cases (text_eq new_hash hash)) [
      | inr d ↦ rw d refl
      | inl d ↦
          let same = text_eq→≡ new_hash hash d in
          let clash = subst (λ x. any_by (hashed x) db.refresh_tokens ≡ false) same e in absurd (cc)
    ]

Step-Spent : {l : Library} {a b : Tables} (hash : Text) → Step l a b → Spent hash a → Spent hash b
unfolding login logout
Step-Spent {l = l} {a = a} hash (by_login user_id password jti now) h =
    elim (Option-cases (check_credentials l a user_id password)) [
      | inl e ↦ rw (e, login) h
      | inr (u, e) ↦ rw (e, login) (sign_in-Spent l a u jti hash now h)
    ]
Step-Spent {l = l} {a = a} hash (by_logout token now) h = elim (Bool-cases (is_blank token)) [
  | inl e ↦ rw (e, logout) h
  | inr e ↦
      rw (e, logout) (revoked-Spent hash (live_with (l.sha256 token)) now a.refresh_tokens h.0 h.1)
]

Reach-Spent : {l : Library} {a b : Tables} (hash : Text) → Reach l a b → Spent hash a → Spent hash b
Reach-Spent hash here h = h
Reach-Spent hash (step s r) h = Reach-Spent hash r (Step-Spent hash s h)

-- A refresh token that was stored and with which a logout was made is refused from then on, whatever
-- logins and logouts follow.
pub logout-refresh_access_token :
    (l : Library) (db later : Tables) (token : Text) (at now : Time)
    → is_blank token ≡ false
    → any_by (hashed (l.sha256 token)) db.refresh_tokens ≡ true
    → Reach l (logout l db token at) later
    → refresh_access_token l later token now ≡ none
unfolding logout
logout-refresh_access_token l db later token at now b stored r =
    let there : any_by (hashed (l.sha256 token)) (logout l db token at).refresh_tokens ≡ true =
      rw (b, logout)
        (any_by-update_by (live_with (l.sha256 token)) (revoked at) (hashed (l.sha256 token))
            db.refresh_tokens (λ t. refl)
          ∙ stored) in
    let (_, out) = Reach-Spent (l.sha256 token) r (there, logout-IsOut l db token at b) in
    refresh-none l later token now (unusable (l.sha256 token) now later.refresh_tokens out)
