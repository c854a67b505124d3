-- ===== src/Signup/Life.antt =====
-- The life of a signup request, without who asks for what: pending, then expired at its end or
-- decided before it, and without personal data some time later.
use lidar_dashboard.Prelude.{
  ◌+◌, ◌*◌, ◌≤◌, ◌<◌, ◌≡◌, inl, inr, ◌⊎◌, Bool, true, false, Option, none, List, [], ◌∷◌, ◌++◌,
  Bool-cases,
}
use lidar_dashboard.Prelude.Text.{Text}
use lidar_dashboard.Prelude.Tables.{All, update_by}
use lidar_dashboard.Auth.Model.{Key, Time}
use lidar_dashboard.Codes.Model.{
  SignupStatus, pending, approved, rejected, SignupRequest, same_status,
}
use lidar_dashboard.Signup.Maintenance.{expire, anonymize, day, signup_request_retention_days}
use lidar_dashboard.Signup.Review.{reviewed}

abbrev pub IsDecision : SignupStatus → Type 0
IsDecision status = (status ≡ approved) ⊎ (status ≡ rejected)

pub data Next (r : SignupRequest) (now : Time) : SignupRequest → Type 0 where
  expires : r.status ≡ pending → r.expires_at ≤ now → Next r now (expire now r)
  decided :
      (status : SignupStatus) (reviewer : Key) (reason : Option Text)
      → IsDecision status
      → r.status ≡ pending
      → now < r.expires_at
      → Next r now (reviewed status reviewer reason now r)
  forgotten :
      same_status r.status pending ≡ false
      → r.updated_at + signup_request_retention_days * day ≤ now
      → Next r now (anonymize now r)

pub data Later : SignupRequest → SignupRequest → Type 0 where
  same : {r : SignupRequest} → Later r r
  next : {r s t : SignupRequest} {now : Time} → Next r now s → Later s t → Later r t

pub Later-trans : {r s t : SignupRequest} → Later r s → Later s t → Later r t
Later-trans same k = k
Later-trans (next n h) k = next n (Later-trans h k)

-- A row that came in later began as a pending request.
abbrev pub HasBegun : SignupRequest → Type 0
HasBegun r =
    (first : SignupRequest) × (first.status ≡ pending)
    × (first.anonymized_at ≡ none)
    × Later first r

-- The rows keep their places and move on; new rows come at the end.
pub data Evolves : List SignupRequest → List SignupRequest → Type 0 where
  begun : {ss : List SignupRequest} → All HasBegun ss → Evolves [] ss
  each :
      {r s : SignupRequest} {rs ss : List SignupRequest}
      → Later r s
      → Evolves rs ss
      → Evolves (r ∷ rs) (s ∷ ss)

pub Evolves-refl : (rs : List SignupRequest) → Evolves rs rs
Evolves-refl [] = begun tt
Evolves-refl (r ∷ rs) = each same (Evolves-refl rs)

All-HasBegun : {rs ss : List SignupRequest} → All HasBegun rs → Evolves rs ss → All HasBegun ss
All-HasBegun all (begun new) = new
All-HasBegun all (each h e) =
    let (first, is_pending, is_new, begins) = all.0 in
    ((first, is_pending, is_new, Later-trans begins h), All-HasBegun all.1 e)

pub Evolves-trans : {rs ss ts : List SignupRequest} → Evolves rs ss → Evolves ss ts → Evolves rs ts
Evolves-trans (begun all) k = begun (All-HasBegun all k)
Evolves-trans (each h e) (each k f) = each (Later-trans h k) (Evolves-trans e f)

pub Evolves-append :
    (rs : List SignupRequest) (r : SignupRequest)
    → r.status ≡ pending
    → r.anonymized_at ≡ none
    → Evolves rs (rs ++ r ∷ [])
Evolves-append [] r h k = begun ((r, h, k, same), tt)
Evolves-append (s ∷ rs) r h k = each same (Evolves-append rs r h k)

pub Evolves-update_by :
    (p : SignupRequest → Bool) (f : SignupRequest → SignupRequest) (now : Time)
    (rs : List SignupRequest)
    → ((r : SignupRequest) → p r ≡ true → Next r now (f r))
    → Evolves rs (update_by p f rs)
unfolding update_by
Evolves-update_by p f now [] step = begun tt
Evolves-update_by p f now (r ∷ rs) step = elim (Bool-cases (p r)) [
  | inl e ↦ rw e (each (next (step r e) same) (Evolves-update_by p f now rs step))
  | inr e ↦ rw e (each same (Evolves-update_by p f now rs step))
]
