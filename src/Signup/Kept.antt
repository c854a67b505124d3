-- ===== src/Signup/Kept.antt =====
-- What is kept of a signup request.
use lidar_dashboard.Prelude.{◌≡◌, ◌≢◌, refl, none, List, [], ◌∷◌}
use lidar_dashboard.Prelude.Text.{Text}
use lidar_dashboard.Prelude.Tables.{All}
use lidar_dashboard.Auth.Model.{Time}
use lidar_dashboard.Codes.Model.{SignupRequest, Server}
use lidar_dashboard.Signup.Actions.{Action, act_all}
use lidar_dashboard.Signup.Life.{
  Next, expires, decided, forgotten, Later, same, next, HasBegun, Evolves, begun, each,
}
use lidar_dashboard.Signup.Final.{IsSettled, not_pending}
use lidar_dashboard.Signup.Refines.{act_all-Evolves}

-- A password hash is kept while a request is pending, and of an anonymised one no personal data is.
pub record IsKept (r : SignupRequest) : Type 0 where
  pub secret : IsSettled r → r.password_hash ≡ none
  pub anonymous :
      r.anonymized_at ≢ none
      → IsSettled r
        × (r.user_id ≡ none)
        × (r.name ≡ none)
        × (r.email ≡ none)
        × (r.phone_number ≡ none)
        × (r.reject_reason ≡ none)

Next-IsKept : {r s : SignupRequest} {now : Time} → Next r now s → IsKept r → IsKept s
Next-IsKept {r} (expires p e) k = record {
  secret = λ h. refl;
  anonymous = λ h. absurd (not_pending r.status (k.anonymous h).0 p);
}
Next-IsKept {r} (decided status reviewer reason d p e) k = record {
  secret = λ h. refl;
  anonymous = λ h. absurd (not_pending r.status (k.anonymous h).0 p);
}
Next-IsKept (forgotten p e) k = record {
  secret = λ h. k.secret p;
  anonymous = λ h. (p, refl, refl, refl, refl, refl);
}

Later-IsKept : {r s : SignupRequest} → Later r s → IsKept r → IsKept s
Later-IsKept same k = k
Later-IsKept (next n h) k = Later-IsKept h (Next-IsKept n k)

HasBegun-IsKept : (r : SignupRequest) → HasBegun r → IsKept r
HasBegun-IsKept r (first, is_pending, is_new, later) = Later-IsKept later (record {
  secret = λ h. absurd (not_pending first.status h is_pending);
  anonymous = λ h. absurd (h is_new);
})

begun-IsKept : (rs : List SignupRequest) → All HasBegun rs → All IsKept rs
begun-IsKept [] all = tt
begun-IsKept (r ∷ rs) all = (HasBegun-IsKept r all.0, begun-IsKept rs all.1)

Evolves-IsKept : {rs ss : List SignupRequest} → Evolves rs ss → All IsKept rs → All IsKept ss
Evolves-IsKept (begun {ss} all) k = begun-IsKept ss all
Evolves-IsKept (each l e) k = (Later-IsKept l k.0, Evolves-IsKept e k.1)

-- Where it holds of the requests, it holds over all actions: only a pending request has a password
-- hash, and an anonymised one is not pending and has no personal data.
pub act_all-IsKept :
    (h : Text → Text) (s : Server) (actions : List Action)
    → All IsKept s.signup_requests
    → All IsKept (act_all h s actions).signup_requests
act_all-IsKept h s actions k = Evolves-IsKept (act_all-Evolves h s actions) k
