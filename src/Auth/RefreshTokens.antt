-- ===== src/Auth/RefreshTokens.antt =====
-- The refresh tokens of a user across logins and logouts.
use mathlib.Core.Path.{subst}
use lidar_dashboard.Prelude.{
  ◌≡◌, refl, ◌∙◌, inl, inr, Bool, false, none, List, [], ◌∷◌, ◌++◌, arith, Bool-cases, Option-cases,
}
use lidar_dashboard.Prelude.Text.{Text}
use lidar_dashboard.Prelude.Tables.{find_by, update_by, count_by, any_by, count_by-append}
use lidar_dashboard.Auth.Model.{Key, Time, User, RefreshToken, Tables, jwt_refresh_secret, Library}
use lidar_dashboard.Auth.Sessions.{
  is_blank, live_of, hashed, live_with, revoked, new_token, refresh_claims, LoginAnswer, signed_in,
  sign_in, check_credentials, login, usable, refresh_access_token, logout, refresh_token_expires_in,
}

-- Rows that an update takes out of a test, and a search that they alone would pass.
module _ {ℓ} {A : Type ℓ} (p : A → Bool) (f : A → A) (out : (x : A) → p (f x) ≡ false) where
  pub count_by-taken_out : (xs : List A) → count_by p (update_by p f xs) ≡ 0
  unfolding count_by update_by
  count_by-taken_out [] = refl
  count_by-taken_out (x ∷ xs) = elim (Bool-cases (p x)) [
    | inl e ↦ rw (e, out x) (omega (arith, count_by-taken_out xs))
    | inr e ↦ rw (e, e) (omega (arith, count_by-taken_out xs))
  ]

find_by-taken_out {ℓ} :
    {A : Type ℓ} (p q : A → Bool) (f : A → A) (xs : List A)
    → ((x : A) → q (f x) ≡ false)
    → ((x : A) → p x ≡ false → q x ≡ false)
    → find_by q (update_by p f xs) ≡ none
unfolding find_by update_by
find_by-taken_out p q f [] out h = refl
find_by-taken_out p q f (x ∷ xs) out h = elim (Bool-cases (p x)) [
  | inl e ↦ rw (e, out x) (find_by-taken_out p q f xs out h)
  | inr e ↦ rw (e, h x e) (find_by-taken_out p q f xs out h)
]

one_new :
    (u : User) (hash : Text) (now : Time) → count_by (live_of u.id) (new_token u hash now ∷ []) ≡ 1
unfolding count_by
one_new u hash now = ground arith

pub live_again : (i : Key) (now : Time) (t : RefreshToken) → live_of i (revoked now t) ≡ false
live_again i now t = ground arith

sign_in-one_live :
    (l : Library) (db : Tables) (u : User) (jti : Text) (now : Time) (a : LoginAnswer)
    → (sign_in l db u jti now).1 ≡ signed_in a
    → count_by (live_of a.id) (sign_in l db u jti now).0.refresh_tokens ≡ 1
unfolding sign_in
sign_in-one_live l db u jti now a =
    let hash =
      l.sha256 (l.sign jwt_refresh_secret (refresh_claims u jti) now refresh_token_expires_in) in
    elim (Bool-cases (any_by (hashed hash) db.refresh_tokens)) [
      | inl e ↦ rw (e, sign_in) (λ k. absurd (cc))
      | inr e ↦
          rw (e, sign_in)
            (λ k.
              let same : u.id ≡ a.id = cc in
              subst
                (λ i.
                  count_by (live_of i) (
                    update_by (live_of u.id) (revoked now) db.refresh_tokens
                    ++ new_token u hash now ∷ [])
                  ≡ 1)
                same
                (count_by-append (live_of u.id)
                    (update_by (live_of u.id) (revoked now) db.refresh_tokens)
                    (new_token u hash now ∷ [])
                  ∙ omega (
                    arith,
                    count_by-taken_out (live_of u.id) (revoked now) (live_again u.id now)
                        db.refresh_tokens,
                    one_new u hash now,
                  )))
    ]

-- A login that succeeds leaves the user with exactly one refresh token that is not revoked.
pub login-one_live :
    (l : Library) (db : Tables) (user_id password jti : Text) (now : Time) (a : LoginAnswer)
    → (login l db user_id password jti now).1 ≡ signed_in a
    → count_by (live_of a.id) (login l db user_id password jti now).0.refresh_tokens ≡ 1
unfolding login
login-one_live l db user_id password jti now a =
    elim (Option-cases (check_credentials l db user_id password)) [
      | inl e ↦ rw (e, login) (λ k. absurd (cc))
      | inr (u, e) ↦ rw (e, login) (sign_in-one_live l db u jti now a)
    ]

-- A refresh with a token that no usable row has.
pub refresh-none :
    (l : Library) (db : Tables) (token : Text) (now : Time)
    → find_by (usable (l.sha256 token) now) db.refresh_tokens ≡ none
    → refresh_access_token l db token now ≡ none
unfolding refresh_access_token
refresh-none l db token now h = elim (Bool-cases (is_blank token)) [
  | inl e ↦ rw (e, refresh_access_token) refl
  | inr e ↦ elim (Option-cases (l.verify jwt_refresh_secret now token)) [
    | inl k ↦ rw (e, k, refresh_access_token) refl
    | inr (c, k) ↦ rw (e, k, h, refresh_access_token) refl
  ]
]

-- The rows of a hash after all of them were revoked.
abbrev pub IsOut : Text → Tables → Type 0
IsOut hash db = find_by (live_with hash) db.refresh_tokens ≡ none

pub unusable :
    (hash : Text) (now : Time) (ts : List RefreshToken)
    → find_by (live_with hash) ts ≡ none
    → find_by (usable hash now) ts ≡ none
unfolding find_by
unusable hash now [] h = refl
unusable hash now (t ∷ ts) h = ground (arith, unusable hash now ts)

pub logout-IsOut :
    (l : Library) (db : Tables) (token : Text) (now : Time)
    → is_blank token ≡ false
    → IsOut (l.sha256 token) (logout l db token now)
unfolding logout
logout-IsOut l db token now h =
    rw (h, logout)
      (find_by-taken_out (live_with (l.sha256 token)) (live_with (l.sha256 token)) (revoked now)
        db.refresh_tokens (λ t. ground arith) (λ t k. k))
