-- ===== src/Signup/Refines.antt =====
-- Every change of the signup requests is one that their life allows.
use lidar_dashboard.Prelude.{
  ◌≡◌, refl, inl, inr, Bool, true, ◌&&◌, Option, none, List, [], ◌∷◌, arith, leb, ltb, ◌==◌,
  Bool-cases, Option-cases,
}
use lidar_dashboard.Prelude.Text.{Text}
use lidar_dashboard.Prelude.Tables.{find_by, count_by, any_by, update_by}
use lidar_dashboard.Auth.Model.{Key, Time}
use lidar_dashboard.Accounts.Reply.{Reply-cases}
use lidar_dashboard.Accounts.Users.{clash}
use lidar_dashboard.Codes.Model.{
  SignupStatus, pending, approved, rejected, expired, SignupRequest, Server, same_status, sent_to,
  latest_by,
}
use lidar_dashboard.Codes.Calls.{
  Call, clean_up, reserve, remove, claim, consume, confirm, perform, is_cooling, can_confirm,
  is_verification,
}
use lidar_dashboard.Signup.Maintenance.{
  expire_pending_signup_requests, anonymize_signup_requests, run_signup_request_maintenance,
  has_expired, expire, to_anonymize, anonymize,
}
use lidar_dashboard.Signup.Requests.{
  SignupFields, signup_values, store_request, create_signup_request, proof_of, is_recent,
  new_request,
}
use lidar_dashboard.Signup.Review.{
  is_request, can_review, reviewed, requested_user, approve_request, approve_signup_request,
  given_reason, is_too_long, reject_request, reject_signup_request,
}
use lidar_dashboard.Signup.Actions.{
  Action, maintain, create, approve, reject, code_call, act, act_all,
}
use lidar_dashboard.Signup.Life.{
  IsDecision, expires, decided, forgotten, Evolves, Evolves-refl, Evolves-trans, Evolves-append,
  Evolves-update_by,
}

pub same_status→≡ : (a b : SignupStatus) → same_status a b ≡ true → a ≡ b
same_status→≡ pending pending h = refl
same_status→≡ approved approved h = refl
same_status→≡ rejected rejected h = refl
same_status→≡ expired expired h = refl
same_status→≡ pending approved h = absurd (cc)
same_status→≡ pending rejected h = absurd (cc)
same_status→≡ pending expired h = absurd (cc)
same_status→≡ approved pending h = absurd (cc)
same_status→≡ approved rejected h = absurd (cc)
same_status→≡ approved expired h = absurd (cc)
same_status→≡ rejected pending h = absurd (cc)
same_status→≡ rejected approved h = absurd (cc)
same_status→≡ rejected expired h = absurd (cc)
same_status→≡ expired pending h = absurd (cc)
same_status→≡ expired approved h = absurd (cc)
same_status→≡ expired rejected h = absurd (cc)

both : (a b : Bool) → a && b ≡ true → (a ≡ true) × (b ≡ true)
both a b h = ground arith

-- How the requests of two servers stand to each other.
abbrev pub Moved : Server → Server → Type 0
Moved s s' = Evolves s.signup_requests s'.signup_requests

expire-Moved : (now : Time) (s : Server) → Moved s (expire_pending_signup_requests now s)
unfolding expire_pending_signup_requests
expire-Moved now s = Evolves-update_by (has_expired now) (expire now) now s.signup_requests (λ r h.
    let (a, b) = both (same_status r.status pending) (leb r.expires_at now) h in
    expires (same_status→≡ r.status pending a) (ground arith))

anonymize-Moved : (now : Time) (s : Server) → Moved s (anonymize_signup_requests now s)
unfolding anonymize_signup_requests
anonymize-Moved now s =
    Evolves-update_by (to_anonymize now) (anonymize now) now s.signup_requests
      (λ r h. forgotten (ground arith) (ground arith))

-- A call about codes leaves the requests as they are.
pub perform-same : (c : Call) (s : Server) → (perform c s).0.signup_requests ≡ s.signup_requests
unfolding perform
perform-same (clean_up now) s = refl
perform-same (reserve email purpose hash now expires_at) s =
    elim (Bool-cases (is_cooling now (latest_by (sent_to email purpose) s.verifications))) [
      | inl e ↦ rw (e, perform) refl
      | inr e ↦ rw (e, perform) refl
    ]
perform-same (remove i) s = refl
perform-same (claim i) s = refl
perform-same (consume i now) s = refl
perform-same (confirm i email user hash now) s =
    elim (Bool-cases (count_by (can_confirm i email) s.verifications == 1)) [
      | inl e ↦ rw (e, perform) refl
      | inr e ↦ rw (e, perform) refl
    ]

perform-Moved : (c : Call) (s : Server) → Moved s (perform c s).0
perform-Moved c s = rw (perform-same c s) (Evolves-refl s.signup_requests)

pub maintenance-Moved : (now : Time) (s : Server) → Moved s (run_signup_request_maintenance now s)
unfolding run_signup_request_maintenance
maintenance-Moved now s = Evolves-trans (expire-Moved now s) (
    Evolves-trans (anonymize-Moved now (expire_pending_signup_requests now s)) (
      perform-Moved (clean_up now)
        (anonymize_signup_requests now (expire_pending_signup_requests now s))))

store_request-Moved :
    (values : Text × Text × Text × Text × Text) (now : Time) (s : Server)
    → Moved s (store_request values now s).0
unfolding store_request
store_request-Moved values now s = elim (Option-cases (proof_of values.3 s)) [
  | inl e ↦ rw (e, store_request) (Evolves-refl s.signup_requests)
  | inr (v, e) ↦ elim (Bool-cases (is_recent now v)) [
    | inr k ↦ rw (e, k, store_request) (Evolves-refl s.signup_requests)
    | inl k ↦ elim (Bool-cases (count_by (is_verification v.id) s.verifications == 1)) [
      | inr m ↦ rw (e, k, m, store_request) (Evolves-refl s.signup_requests)
      | inl m ↦
          rw (e, k, m, store_request)
            (Evolves-append s.signup_requests (new_request s.next_id values now) refl refl)
    ]
  ]
]

create-Moved :
    (h : Text → Text) (f : SignupFields) (now : Time) (s : Server)
    → Moved s (create_signup_request h f now s).0
unfolding create_signup_request
create-Moved h f now s =
    let s_1 = expire_pending_signup_requests now s in
    elim (Reply-cases (signup_values h f now s_1)) [
      | inr (n, e) ↦ rw (e, create_signup_request) (expire-Moved now s)
      | inl (values, e) ↦
          rw (e, create_signup_request)
            (Evolves-trans (expire-Moved now s) (store_request-Moved values now s_1))
    ]

-- A decision on the requests that can be reviewed.
review-Moved :
    (id reviewer : Key) (status : SignupStatus) (reason : Option Text) (now : Time)
    (rs : List SignupRequest)
    → IsDecision status
    → Evolves rs (update_by (can_review id now) (reviewed status reviewer reason now) rs)
review-Moved id reviewer status reason now rs d =
    Evolves-update_by (can_review id now) (reviewed status reviewer reason now) now rs (λ r h.
      let (a, b) = both (is_request id r) _ h in
      let (c, e) = both (same_status r.status pending) (ltb now r.expires_at) b in
      decided status reviewer reason d (same_status→≡ r.status pending c) (ground arith))

approve-Moved :
    (id reviewer : Key) (now : Time) (s : Server) → Moved s (approve_request id reviewer now s).0
unfolding approve_request
approve-Moved id reviewer now s = elim (Option-cases (find_by (is_request id) s.signup_requests)) [
  | inl e ↦ rw (e, approve_request) (Evolves-refl s.signup_requests)
  | inr (r, e) ↦ elim (Bool-cases (same_status r.status pending)) [
    | inr k ↦ rw (e, k, approve_request) (Evolves-refl s.signup_requests)
    | inl k ↦ elim (Option-cases (requested_user s.next_id r)) [
      | inl m ↦ rw (e, k, m, approve_request) (Evolves-refl s.signup_requests)
      | inr (u, m) ↦ elim (Bool-cases (count_by (can_review id now) s.signup_requests == 1)) [
        | inr p ↦ rw (e, k, m, p, approve_request) (Evolves-refl s.signup_requests)
        | inl p ↦ elim (Bool-cases (any_by (clash u) s.database.tables.users)) [
          | inl q ↦ rw (e, k, m, p, q, approve_request) (Evolves-refl s.signup_requests)
          | inr q ↦
              rw (e, k, m, p, q, approve_request)
                (review-Moved id reviewer approved none now s.signup_requests (inl refl))
        ]
      ]
    ]
  ]
]

reject-Moved :
    (id reviewer : Key) (reason : Option Text) (now : Time) (s : Server)
    → Moved s (reject_request id reviewer reason now s).0
unfolding reject_request
reject-Moved id reviewer reason now s =
    elim (Option-cases (find_by (is_request id) s.signup_requests)) [
      | inl e ↦ rw (e, reject_request) (Evolves-refl s.signup_requests)
      | inr (r, e) ↦ elim (Bool-cases (same_status r.status pending)) [
        | inr k ↦ rw (e, k, reject_request) (Evolves-refl s.signup_requests)
        | inl k ↦ elim (Bool-cases (count_by (can_review id now) s.signup_requests == 1)) [
          | inr p ↦ rw (e, k, p, reject_request) (Evolves-refl s.signup_requests)
          | inl p ↦
              rw (e, k, p, reject_request)
                (review-Moved id reviewer rejected reason now s.signup_requests (inr refl))
        ]
      ]
    ]

reject_signup-Moved :
    (id reviewer : Key) (reason : Option Text) (now : Time) (s : Server)
    → Moved s (reject_signup_request id reviewer reason now s).0
unfolding reject_signup_request
reject_signup-Moved id reviewer reason now s =
    elim (Bool-cases (is_too_long (given_reason reason))) [
      | inl e ↦ rw (e, reject_signup_request) (maintenance-Moved now s)
      | inr e ↦
          rw (e, reject_signup_request)
            (Evolves-trans (maintenance-Moved now s) (
              reject-Moved id reviewer (given_reason reason) now
                (run_signup_request_maintenance now s)))
    ]

pub act-Moved :
    (h : Text → Text) (s : Server) (a : Action)
    → Evolves s.signup_requests (act h s a).signup_requests
unfolding act approve_signup_request
act-Moved h s (maintain now) = maintenance-Moved now s
act-Moved h s (create f now) = create-Moved h f now s
act-Moved h s (approve id reviewer now) =
    Evolves-trans (maintenance-Moved now s)
      (approve-Moved id reviewer now (run_signup_request_maintenance now s))
act-Moved h s (reject id reviewer reason now) = reject_signup-Moved id reviewer reason now s
act-Moved h s (code_call c) = perform-Moved c s

-- Over all actions, each signup request lives as it should: it stays pending until it expires, not
-- before its end, or is decided once, before its end, and loses its personal data only when it is
-- no longer pending and 90 days have passed; and every row that comes in begins as a pending request.
pub act_all-Evolves :
    (h : Text → Text) (s : Server) (actions : List Action)
    → Evolves s.signup_requests (act_all h s actions).signup_requests
unfolding act_all
act_all-Evolves h s [] = Evolves-refl s.signup_requests
act_all-Evolves h s (a ∷ actions) =
    Evolves-trans (act-Moved h s a) (act_all-Evolves h (act h s a) actions)
