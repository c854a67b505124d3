-- ===== src/Auth/SessionEnd.antt =====
-- The end of the access tokens of a user: logins and logouts raise the session version.
use lidar_dashboard.Prelude.{
  ℕ, ◌≤◌, ◌<◌, ◌≡◌, refl, ap, inl, inr, Bool, false, Option, none, some, List, arith, ltb, ◌==◌,
  if◌then◌else◌, Bool-cases, Option-cases,
}
use lidar_dashboard.Prelude.Text.{Text}
use lidar_dashboard.Prelude.Tables.{find_by, update_by, any_by, find_by-update_by}
use lidar_dashboard.Auth.Model.{Key, Time, User, Tables, jwt_refresh_secret, Claims, Library}
use lidar_dashboard.Auth.Sessions.{
  is_blank, hashed, refresh_claims, sign_in, check_credentials, login, logout, logged_in,
  next_session, end_session, decoded_id, has_id, refresh_token_expires_in, claimed_user,
}
use lidar_dashboard.Auth.LoggedOut.{Step, by_login, by_logout, Reach, here, step}

abbrev pub user_at : Key → Tables → Option User
user_at i db = find_by (has_id i) db.users

-- The same user or a later version of it.
abbrev pub Newer : Option User → Option User → Type 0
Newer none o = Unit {0}
Newer (some u) none = ⊥
Newer (some u) (some v) = u.session_version ≤ v.session_version

pub Newer-refl : (o : Option User) → Newer o o
Newer-refl none = tt
Newer-refl (some u) = omega arith

pub Newer-trans : (o p q : Option User) → Newer o p → Newer p q → Newer o q
Newer-trans none p q h k = tt
Newer-trans (some u) (some v) (some w) h k = omega arith
Newer-trans (some u) (some v) none h k = k
Newer-trans (some u) none q h k = absurd h

raised-Newer :
    (p : User → Bool) (f : User → User) (o : Option User)
    → ((u : User) → u.session_version ≤ (f u).session_version)
    → Newer o (elim o [ none ↦ none | some u ↦ some (if p u then f u else u) ])
raised-Newer p f none h = tt
raised-Newer p f (some u) h = elim (Bool-cases (p u)) [
  | inl e ↦ rw e (h u)
  | inr e ↦ rw e (omega arith)
]

pub update-Newer :
    (i : Key) (p : User → Bool) (f : User → User) (users : List User)
    → ((u : User) → (f u).id ≡ u.id)
    → ((u : User) → u.session_version ≤ (f u).session_version)
    → Newer (find_by (has_id i) users) (find_by (has_id i) (update_by p f users))
update-Newer i p f users same h =
    rw (find_by-update_by (has_id i) p f users (λ u. ap (λ n. n == i) (same u)))
      (raised-Newer p f (find_by (has_id i) users) h)

sign_in-Newer :
    (l : Library) (db : Tables) (u : User) (jti : Text) (now : Time) (i : Key)
    → Newer (user_at i db) (user_at i (sign_in l db u jti now).0)
unfolding sign_in
sign_in-Newer l db u jti now i =
    let hash =
      l.sha256 (l.sign jwt_refresh_secret (refresh_claims u jti) now refresh_token_expires_in) in
    elim (Bool-cases (any_by (hashed hash) db.refresh_tokens)) [
      | inl e ↦ rw (e, sign_in) (Newer-refl (user_at i db))
      | inr e ↦
          rw (e, sign_in)
            (update-Newer i (has_id u.id) (logged_in now) db.users (λ x. refl) (λ x. omega arith))
    ]

end_session-Newer :
    (o : Option Key) (n : ℕ) (i : Key) (users : List User)
    → Newer (find_by (has_id i) users) (find_by (has_id i) (end_session o n users))
end_session-Newer none n i users = Newer-refl (find_by (has_id i) users)
end_session-Newer (some j) n i users = elim (Bool-cases (ltb 0 n)) [
  | inl e ↦ rw e (update-Newer i (has_id j) next_session users (λ x. refl) (λ x. omega arith))
  | inr e ↦ rw e (Newer-refl (find_by (has_id i) users))
]

pub Step-Newer :
    {l : Library} {a b : Tables} (i : Key) → Step l a b → Newer (user_at i a) (user_at i b)
unfolding login logout
Step-Newer {l = l} {a = a} i (by_login user_id password jti now) =
    elim (Option-cases (check_credentials l a user_id password)) [
      | inl e ↦ rw (e, login) (Newer-refl (user_at i a))
      | inr (u, e) ↦ rw (e, login) (sign_in-Newer l a u jti now i)
    ]
Step-Newer {l = l} {a = a} i (by_logout token now) = elim (Bool-cases (is_blank token)) [
  | inl e ↦ rw (e, logout) (Newer-refl (user_at i a))
  | inr e ↦
      rw (e, logout)
        (end_session-Newer (decoded_id (l.verify jwt_refresh_secret now token)) _ i a.users)
]

pub Reach-Newer :
    {l : Library} {a b : Tables} (i : Key) → Reach l a b → Newer (user_at i a) (user_at i b)
Reach-Newer {a = a} i here = Newer-refl (user_at i a)
Reach-Newer i (step {a = a} {b = b} {c = c} s r) =
    Newer-trans (user_at i a) (user_at i b) (user_at i c) (Step-Newer i s) (Reach-Newer i r)

-- Claims that are older than the user's row stand for nobody.
pub outdated :
    (db : Tables) (c : Claims) (i : Key) (n : ℕ)
    → c.id ≡ some i
    → c.session_version ≡ some n
    → ((u : User) → user_at i db ≡ some u → n < u.session_version)
    → claimed_user db c ≡ none
unfolding claimed_user
outdated db c i n same version h = elim (Option-cases (user_at i db)) [
  | inl e ↦ rw (same, e, claimed_user) refl
  | inr (u, e) ↦
      let apart : (n == u.session_version) ≡ false = ground (arith, h u e) in
      elim (Bool-cases u.is_active) [
        | inl a ↦ rw (same, e, version, a, apart, claimed_user) refl
        | inr a ↦ rw (same, e, a, claimed_user) refl
      ]
]
