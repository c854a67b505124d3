-- ===== src/Signup/Approvals.antt =====
-- One account for one approval.
use lidar_dashboard.Prelude.{
  ℕ, ◌+◌, ◌≡◌, refl, sym, inl, inr, true, Option, none, List, [], ◌∷◌, arith, ◌==◌, Bool-cases,
  Option-cases, length-append,
}
use lidar_dashboard.Prelude.Text.{Text}
use lidar_dashboard.Prelude.Tables.{find_by, count_by, any_by, update_by}
use lidar_dashboard.Auth.Model.{Key, Time}
use lidar_dashboard.Accounts.Reply.{Reply-cases}
use lidar_dashboard.Accounts.Users.{clash}
use lidar_dashboard.Codes.Model.{pending, approved, rejected, SignupRequest, Server, same_status}
use lidar_dashboard.Signup.Maintenance.{
  expire_pending_signup_requests, run_signup_request_maintenance,
}
use lidar_dashboard.Signup.Requests.{
  SignupFields, signup_values, store_request, create_signup_request,
}
use lidar_dashboard.Signup.Review.{
  is_request, can_review, reviewed, requested_user, approve_request, approve_signup_request,
  given_reason, is_too_long, reject_request, reject_signup_request,
}
use lidar_dashboard.Signup.Actions.{
  Action, maintain, create, approve, reject, code_call, act, act_all,
}
use lidar_dashboard.Signup.Balance.{
  is_approved, accounts, approvals, Balanced, Balanced-trans, same_Balanced, not_approved,
  count_by-kept, count_by-raised, perform-Balanced, expire-Balanced, maintenance-Balanced,
  store_request-Balanced,
}

create-Balanced :
    (h : Text → Text) (f : SignupFields) (now : Time) (s : Server)
    → Balanced s (create_signup_request h f now s).0
unfolding create_signup_request
create-Balanced h f now s =
    let s_1 = expire_pending_signup_requests now s in
    elim (Reply-cases (signup_values h f now s_1)) [
      | inr (n, e) ↦ rw (e, create_signup_request) (expire-Balanced now s)
      | inl (values, e) ↦
          rw (e, create_signup_request)
            (Balanced-trans s s_1 (store_request values now s_1).0 (expire-Balanced now s)
              (store_request-Balanced values now s_1))
    ]

one_is : (n : ℕ) → (n == 1) ≡ true → n ≡ 1
one_is n h = ground arith

-- An approval of one row, and the account for it.
approve-counts :
    (id reviewer : Key) (now : Time) (rs : List SignupRequest)
    → (count_by (can_review id now) rs == 1) ≡ true
    → count_by is_approved (update_by (can_review id now) (reviewed approved reviewer none now) rs)
      ≡ count_by is_approved rs + 1
approve-counts id reviewer now rs h = omega (
  arith,
  count_by-raised is_approved (can_review id now) (reviewed approved reviewer none now) rs
      (λ r k. (not_approved r.status (ground arith), refl)),
  one_is (count_by (can_review id now) rs) h,
)

approve-Balanced :
    (id reviewer : Key) (now : Time) (s : Server) → Balanced s (approve_request id reviewer now s).0
unfolding approve_request
approve-Balanced id reviewer now s =
    elim (Option-cases (find_by (is_request id) s.signup_requests)) [
      | inl e ↦ rw (e, approve_request) (same_Balanced s)
      | inr (r, e) ↦ elim (Bool-cases (same_status r.status pending)) [
        | inr k ↦ rw (e, k, approve_request) (same_Balanced s)
        | inl k ↦ elim (Option-cases (requested_user s.next_id r)) [
          | inl m ↦ rw (e, k, m, approve_request) (same_Balanced s)
          | inr (u, m) ↦ elim (Bool-cases (count_by (can_review id now) s.signup_requests == 1)) [
            | inr p ↦ rw (e, k, m, p, approve_request) (same_Balanced s)
            | inl p ↦ elim (Bool-cases (any_by (clash u) s.database.tables.users)) [
              | inl q ↦ rw (e, k, m, p, q, approve_request) (same_Balanced s)
              | inr q ↦
                  rw (e, k, m, p, q, approve_request)
                    (omega (
                      arith,
                      approve-counts id reviewer now s.signup_requests p,
                      length-append s.database.tables.users (u ∷ []),
                    ))
            ]
          ]
        ]
      ]
    ]

reject-counts :
    (id reviewer : Key) (reason : Option Text) (now : Time) (rs : List SignupRequest)
    → count_by is_approved
        (update_by (can_review id now) (reviewed rejected reviewer reason now) rs)
      ≡ count_by is_approved rs
reject-counts id reviewer reason now rs =
    count_by-kept is_approved (can_review id now) (reviewed rejected reviewer reason now) rs
      (λ r h. sym (not_approved r.status (ground arith)))

reject-Balanced :
    (id reviewer : Key) (reason : Option Text) (now : Time) (s : Server)
    → Balanced s (reject_request id reviewer reason now s).0
unfolding reject_request
reject-Balanced id reviewer reason now s =
    elim (Option-cases (find_by (is_request id) s.signup_requests)) [
      | inl e ↦ rw (e, reject_request) (same_Balanced s)
      | inr (r, e) ↦ elim (Bool-cases (same_status r.status pending)) [
        | inr k ↦ rw (e, k, reject_request) (same_Balanced s)
        | inl k ↦ elim (Bool-cases (count_by (can_review id now) s.signup_requests == 1)) [
          | inr p ↦ rw (e, k, p, reject_request) (same_Balanced s)
          | inl p ↦
              rw (e, k, p, reject_request)
                (omega (arith, reject-counts id reviewer reason now s.signup_requests))
        ]
      ]
    ]

reject_signup-Balanced :
    (id reviewer : Key) (reason : Option Text) (now : Time) (s : Server)
    → Balanced s (reject_signup_request id reviewer reason now s).0
unfolding reject_signup_request
reject_signup-Balanced id reviewer reason now s =
    let s_1 = run_signup_request_maintenance now s in
    elim (Bool-cases (is_too_long (given_reason reason))) [
      | inl e ↦ rw (e, reject_signup_request) (maintenance-Balanced now s)
      | inr e ↦
          rw (e, reject_signup_request)
            (Balanced-trans s s_1 (reject_request id reviewer (given_reason reason) now s_1).0
              (maintenance-Balanced now s)
              (reject-Balanced id reviewer (given_reason reason) now s_1))
    ]

act-Balanced : (h : Text → Text) (s : Server) (a : Action) → Balanced s (act h s a)
unfolding act approve_signup_request
act-Balanced h s (maintain now) = maintenance-Balanced now s
act-Balanced h s (create f now) = create-Balanced h f now s
act-Balanced h s (approve id reviewer now) =
    let s_1 = run_signup_request_maintenance now s in
    Balanced-trans s s_1 (approve_request id reviewer now s_1).0 (maintenance-Balanced now s)
      (approve-Balanced id reviewer now s_1)
act-Balanced h s (reject id reviewer reason now) = reject_signup-Balanced id reviewer reason now s
act-Balanced h s (code_call c) = perform-Balanced c s

-- Over all actions on signup requests and codes, as many accounts come to the table of the users as
-- requests become approved: an approval makes one account and nothing else makes one.
pub act_all-approvals :
    (h : Text → Text) (s : Server) (actions : List Action)
    → accounts (act_all h s actions) + approvals s ≡ accounts s + approvals (act_all h s actions)
unfolding act_all
act_all-approvals h s [] = refl
act_all-approvals h s (a ∷ actions) =
    Balanced-trans s (act h s a) (act_all h (act h s a) actions) (act-Balanced h s a)
      (act_all-approvals h (act h s a) actions)
