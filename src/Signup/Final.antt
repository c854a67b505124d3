-- ===== src/Signup/Final.antt =====
-- A decision is final.
use mathlib.Core.Path.{subst}
use lidar_dashboard.Prelude.{
  ◌≡◌, refl, sym, ap, ◌∙◌, inl, inr, true, false, Option, some, List, ◌==◌, Bool-cases,
  if◌then◌else◌,
}
use lidar_dashboard.Prelude.Text.{Text}
use lidar_dashboard.Prelude.Tables.{find_by}
use lidar_dashboard.Auth.Model.{Key, Time}
use lidar_dashboard.Accounts.Reply.{http_error}
use lidar_dashboard.Codes.Model.{SignupStatus, pending, SignupRequest, Server, same_status}
use lidar_dashboard.Signup.Maintenance.{run_signup_request_maintenance}
use lidar_dashboard.Signup.Review.{
  is_request, approve_request, approve_signup_request, given_reason, is_too_long, reject_request,
  reject_signup_request,
}
use lidar_dashboard.Signup.Actions.{Action, act_all}
use lidar_dashboard.Signup.Life.{
  Next, expires, decided, forgotten, Later, same, next, Evolves, begun, each,
}
use lidar_dashboard.Signup.Refines.{maintenance-Moved, act_all-Evolves}

Next-id : {r s : SignupRequest} {now : Time} → Next r now s → s.id ≡ r.id
Next-id (expires p e) = refl
Next-id (decided status reviewer reason d p e) = refl
Next-id (forgotten p e) = refl

Later-id : {r s : SignupRequest} → Later r s → s.id ≡ r.id
Later-id same = refl
Later-id (next n h) = Later-id h ∙ Next-id n

-- A request that is over.
abbrev pub IsSettled : SignupRequest → Type 0
IsSettled r = same_status r.status pending ≡ false

pub not_pending : (s : SignupStatus) → same_status s pending ≡ false → s ≡ pending → ⊥
not_pending s h e = (let j = rw e at h in absurd (cc))

Next-status : {r s : SignupRequest} {now : Time} → IsSettled r → Next r now s → s.status ≡ r.status
Next-status {r} h (expires p e) = absurd (not_pending r.status h p)
Next-status {r} h (decided status reviewer reason d p e) = absurd (not_pending r.status h p)
Next-status h (forgotten p e) = refl

Later-status : {r s : SignupRequest} → IsSettled r → Later r s → s.status ≡ r.status
Later-status h same = refl
Later-status h (next n k) =
    let e = Next-status h n in
    Later-status (subst (λ x. same_status x pending ≡ false) (sym e) h) k ∙ e

-- The row of a request is found at every later time.
find_by-Evolves :
    (id : Key) {rs ss : List SignupRequest} (r : SignupRequest)
    → Evolves rs ss
    → find_by (is_request id) rs ≡ some r
    → (s : SignupRequest) × (find_by (is_request id) ss ≡ some s) × Later r s
unfolding find_by
find_by-Evolves id r (begun all) h = absurd (cc)
find_by-Evolves id r (each {r = a} {s = b} l e) h = elim (Bool-cases (is_request id a)) [
  | inl k ↦
      let j = rw k at h in
      let is : a ≡ r = cc in
      let found : is_request id b ≡ true = ap (λ n. n == id) (Later-id l) ∙ k in
      (b, rw found refl, subst (λ x. Later x b) is l)
  | inr k ↦
      let (s, found, later) = find_by-Evolves id r e (rw k at h) in
      let other : is_request id b ≡ false = ap (λ n. n == id) (Later-id l) ∙ k in
      (s, rw other found, later)
]

IsSettled-later :
    (id : Key) {rs ss : List SignupRequest} (r : SignupRequest)
    → Evolves rs ss
    → find_by (is_request id) rs ≡ some r
    → IsSettled r
    → (s : SignupRequest) × (find_by (is_request id) ss ≡ some s)
      × (s.status ≡ r.status)
      × IsSettled s
IsSettled-later id r e h settled =
    let (s, found, later) = find_by-Evolves id r e h in
    let kept = Later-status settled later in
    (s, found, kept, subst (λ x. same_status x pending ≡ false) (sym kept) settled)

approve_request-settled :
    (id reviewer : Key) (now : Time) (s : Server) (r : SignupRequest)
    → find_by (is_request id) s.signup_requests ≡ some r
    → IsSettled r
    → approve_request id reviewer now s ≡ (s, http_error 409)
unfolding approve_request
approve_request-settled id reviewer now s r h k = rw (h, k, approve_request) refl

reject_request-settled :
    (id reviewer : Key) (reason : Option Text) (now : Time) (s : Server) (r : SignupRequest)
    → find_by (is_request id) s.signup_requests ≡ some r
    → IsSettled r
    → reject_request id reviewer reason now s ≡ (s, http_error 409)
unfolding reject_request
reject_request-settled id reviewer reason now s r h k = rw (h, k, reject_request) refl

-- The answers to a review of a request that is over.
reviews_refused :
    (id reviewer : Key) (reason : Option Text) (now : Time) (s : Server) (r : SignupRequest)
    → find_by (is_request id) s.signup_requests ≡ some r
    → IsSettled r
    → ((approve_signup_request id reviewer now s).1 ≡ http_error 409)
      × ((reject_signup_request id reviewer reason now s).1
          ≡ http_error (if is_too_long (given_reason reason) then 400 else 409))
unfolding approve_signup_request reject_signup_request
reviews_refused id reviewer reason now s r h k =
    let t = run_signup_request_maintenance now s in
    let (u, found, status, settled) = IsSettled-later id r (maintenance-Moved now s) h k in
    (
      ap (λ x. x.1) (approve_request-settled id reviewer now t u found settled),
      elim (Bool-cases (is_too_long (given_reason reason))) [
        | inl e ↦ rw (e, reject_signup_request) refl
        | inr e ↦
            rw (e, reject_signup_request)
              (ap (λ x. x.1)
                (reject_request-settled id reviewer (given_reason reason) now t u found settled))
      ],
    )

-- A request that was approved, rejected or expired keeps its status over all actions, and every
-- later approval and rejection of it is refused by 409, or by 400 for a reason that is too long.
pub act_all-settled :
    (h : Text → Text) (s : Server) (actions : List Action) (id reviewer : Key)
    (reason : Option Text) (now : Time) (r : SignupRequest)
    → find_by (is_request id) s.signup_requests ≡ some r
    → IsSettled r
    → ((u : SignupRequest) × (find_by (is_request id) (act_all h s actions).signup_requests
          ≡ some u)
        × (u.status ≡ r.status))
      × ((approve_signup_request id reviewer now (act_all h s actions)).1 ≡ http_error 409)
      × ((reject_signup_request id reviewer reason now (act_all h s actions)).1
          ≡ http_error (if is_too_long (given_reason reason) then 400 else 409))
act_all-settled h s actions id reviewer reason now r found settled =
    let (u, there, status, over) =
      IsSettled-later id r (act_all-Evolves h s actions) found settled in
    let (a, b) = reviews_refused id reviewer reason now (act_all h s actions) u there over in
    ((u, there, status), a, b)
