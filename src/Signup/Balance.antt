-- ===== src/Signup/Balance.antt =====
-- How the accounts and the approvals of a server move together.
use lidar_dashboard.Prelude.{
  ℕ, ◌+◌, ◌≡◌, refl, sym, ap, inl, inr, Bool, true, false, List, [], ◌∷◌, arith, ◌==◌, length,
  Bool-cases, Option-cases,
}
use lidar_dashboard.Prelude.Text.{Text}
use lidar_dashboard.Prelude.Tables.{count_by, update_by, length-update_by, count_by-append}
use lidar_dashboard.Auth.Model.{Time}
use lidar_dashboard.Auth.Sessions.{has_id}
use lidar_dashboard.Accounts.Passwords.{set_password, with_password}
use lidar_dashboard.Codes.Model.{
  SignupStatus, pending, approved, rejected, expired, SignupRequest, Server, same_status, sent_to,
  latest_by,
}
use lidar_dashboard.Codes.Calls.{
  Call, clean_up, reserve, remove, claim, consume, confirm, perform, is_cooling, can_confirm,
  is_verification,
}
use lidar_dashboard.Signup.Maintenance.{
  expire_pending_signup_requests, anonymize_signup_requests, run_signup_request_maintenance,
  has_expired, expire, to_anonymize, anonymize,
}
use lidar_dashboard.Signup.Requests.{store_request, proof_of, is_recent, new_request}
use lidar_dashboard.Signup.Refines.{perform-same}

abbrev pub is_approved : SignupRequest → Bool
is_approved r = same_status r.status approved

abbrev pub accounts : Server → ℕ
accounts s = length s.database.tables.users

abbrev pub approvals : Server → ℕ
approvals s = count_by is_approved s.signup_requests

-- As many accounts came as approvals.
abbrev pub Balanced : Server → Server → Type 0
Balanced s s' = accounts s' + approvals s ≡ accounts s + approvals s'

pub Balanced-trans : (s t u : Server) → Balanced s t → Balanced t u → Balanced s u
Balanced-trans s t u h k = omega arith

module _ (p q : SignupRequest → Bool) (f : SignupRequest → SignupRequest) where
  pub count_by-kept :
      (rs : List SignupRequest)
      → ((r : SignupRequest) → q r ≡ true → p (f r) ≡ p r)
      → count_by p (update_by q f rs) ≡ count_by p rs
  unfolding count_by update_by
  count_by-kept [] keep = refl
  count_by-kept (r ∷ rs) keep = elim (Bool-cases (q r)) [
    | inl e ↦ rw (e, keep r e) (omega (arith, count_by-kept rs keep))
    | inr e ↦ rw e (omega (arith, count_by-kept rs keep))
  ]

  pub count_by-raised :
      (rs : List SignupRequest)
      → ((r : SignupRequest) → q r ≡ true → (p r ≡ false) × (p (f r) ≡ true))
      → count_by p (update_by q f rs) ≡ count_by p rs + count_by q rs
  unfolding count_by update_by
  count_by-raised [] raise = omega arith
  count_by-raised (r ∷ rs) raise = elim (Bool-cases (q r)) [
    | inl e ↦ let (a, b) = raise r e in rw (e, a, b) (omega (arith, count_by-raised rs raise))
    | inr e ↦ rw e (omega (arith, count_by-raised rs raise))
  ]

pub not_approved :
    (s : SignupStatus) → same_status s pending ≡ true → same_status s approved ≡ false
not_approved pending h = refl
not_approved approved h = absurd (cc)
not_approved rejected h = refl
not_approved expired h = refl

expire-approvals :
    (now : Time) (s : Server) → approvals (expire_pending_signup_requests now s) ≡ approvals s
unfolding expire_pending_signup_requests
expire-approvals now s =
    count_by-kept is_approved (has_expired now) (expire now) s.signup_requests
      (λ r h. sym (not_approved r.status (ground arith)))

anonymize-approvals :
    (now : Time) (s : Server) → approvals (anonymize_signup_requests now s) ≡ approvals s
unfolding anonymize_signup_requests
anonymize-approvals now s =
    count_by-kept is_approved (to_anonymize now) (anonymize now) s.signup_requests (λ r h. refl)

perform-accounts : (c : Call) (s : Server) → accounts (perform c s).0 ≡ accounts s
unfolding perform set_password
perform-accounts (clean_up now) s = refl
perform-accounts (reserve email purpose hash now expires_at) s =
    elim (Bool-cases (is_cooling now (latest_by (sent_to email purpose) s.verifications))) [
      | inl e ↦ rw (e, perform) refl
      | inr e ↦ rw (e, perform) refl
    ]
perform-accounts (remove i) s = refl
perform-accounts (claim i) s = refl
perform-accounts (consume i now) s = refl
perform-accounts (confirm i email user hash now) s =
    elim (Bool-cases (count_by (can_confirm i email) s.verifications == 1)) [
      | inl e ↦
          rw (e, perform)
            (length-update_by (has_id user) (with_password hash) s.database.tables.users)
      | inr e ↦ rw (e, perform) refl
    ]

pub perform-Balanced : (c : Call) (s : Server) → Balanced s (perform c s).0
perform-Balanced c s =
    omega (arith, perform-accounts c s, ap (count_by is_approved) (perform-same c s))

pub expire-Balanced : (now : Time) (s : Server) → Balanced s (expire_pending_signup_requests now s)
unfolding expire_pending_signup_requests
expire-Balanced now s = omega (arith, expire-approvals now s)

pub maintenance-Balanced :
    (now : Time) (s : Server) → Balanced s (run_signup_request_maintenance now s)
unfolding run_signup_request_maintenance anonymize_signup_requests
maintenance-Balanced now s =
    let s_1 = expire_pending_signup_requests now s in
    let s_2 = anonymize_signup_requests now s_1 in
    Balanced-trans s s_1 (perform (clean_up now) s_2).0 (expire-Balanced now s) (
      Balanced-trans s_1 s_2 (perform (clean_up now) s_2).0
        (omega (arith, anonymize-approvals now s_1)) (perform-Balanced (clean_up now) s_2))

pub same_Balanced : (s : Server) → Balanced s s
same_Balanced s = refl

pub store_request-Balanced :
    (values : Text × Text × Text × Text × Text) (now : Time) (s : Server)
    → Balanced s (store_request values now s).0
unfolding store_request count_by
store_request-Balanced values now s = elim (Option-cases (proof_of values.3 s)) [
  | inl e ↦ rw (e, store_request) (same_Balanced s)
  | inr (v, e) ↦ elim (Bool-cases (is_recent now v)) [
    | inr k ↦ rw (e, k, store_request) (same_Balanced s)
    | inl k ↦ elim (Bool-cases (count_by (is_verification v.id) s.verifications == 1)) [
      | inr m ↦ rw (e, k, m, store_request) (same_Balanced s)
      | inl m ↦
          rw (e, k, m, store_request)
            (omega (
              arith,
              count_by-append is_approved s.signup_requests (new_request s.next_id values now ∷ []),
            ))
    ]
  ]
]
