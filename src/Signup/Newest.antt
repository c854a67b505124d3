-- ===== src/Signup/Newest.antt =====
-- The order of the list of signup requests, and which of them it has.
use lidar_dashboard.Prelude.{
  ◌↔◌, Bool, true, ◌&&◌, ltb, if◌then◌else◌, ◌+◌, ◌≤◌, ◌≡◌, refl, ap, ◌∙◌, inl, inr, Option, none,
  some, List, [], ◌∷◌, arith, Bool-cases,
}
use lidar_dashboard.Prelude.Tables.{All, count_by}
use lidar_dashboard.Auth.Model.{Time}
use lidar_dashboard.Codes.Model.{same_status, SignupStatus, SignupRequest}
use lidar_dashboard.Signup.Listing.{wanted, insert_request, newest_first}

-- The rows of the table that are listed, in their order.
abbrev pub IsNewestFirst : List SignupRequest → Type 0
IsNewestFirst [] = Unit
IsNewestFirst (r ∷ rs) = All (λ x. x.created_at ≤ r.created_at) rs × IsNewestFirst rs

insert_request-All :
    (t : Time) (r : SignupRequest) (rs : List SignupRequest)
    → r.created_at ≤ t
    → All (λ x. x.created_at ≤ t) rs
    → All (λ x. x.created_at ≤ t) (insert_request r rs)
unfolding insert_request
insert_request-All t r [] h all = (h, tt)
insert_request-All t r (x ∷ xs) h all = elim (Bool-cases (ltb x.created_at r.created_at)) [
  | inl e ↦ rw e (h, all)
  | inr e ↦ rw e (all.0, insert_request-All t r xs h all.1)
]

All-later :
    (a b : Time) (rs : List SignupRequest)
    → a ≤ b
    → All (λ x. x.created_at ≤ a) rs
    → All (λ x. x.created_at ≤ b) rs
All-later a b [] h all = tt
All-later a b (x ∷ xs) h all = (omega (arith, h, all.0), All-later a b xs h all.1)

insert_request-IsNewestFirst :
    (r : SignupRequest) (rs : List SignupRequest)
    → IsNewestFirst rs
    → IsNewestFirst (insert_request r rs)
unfolding insert_request
insert_request-IsNewestFirst r [] h = (tt, tt)
insert_request-IsNewestFirst r (x ∷ xs) h = elim (Bool-cases (ltb x.created_at r.created_at)) [
  | inl e ↦
      let before : x.created_at ≤ r.created_at = ground (arith, e) in
      rw e ((before, All-later x.created_at r.created_at xs before h.0), h)
  | inr e ↦
      let after : r.created_at ≤ x.created_at = ground (arith, e) in
      rw e (insert_request-All x.created_at r xs after h.0, insert_request-IsNewestFirst r xs h.1)
]

pub newest_first-IsNewestFirst :
    (p : SignupRequest → Bool) (rs : List SignupRequest) → IsNewestFirst (newest_first p rs)
unfolding newest_first
newest_first-IsNewestFirst p [] = tt
newest_first-IsNewestFirst p (r ∷ rs) = elim (Bool-cases (p r)) [
  | inl e ↦
      rw e (insert_request-IsNewestFirst r (newest_first p rs) (newest_first-IsNewestFirst p rs))
  | inr e ↦ rw e (newest_first-IsNewestFirst p rs)
]

count-insert_request :
    (q : SignupRequest → Bool) (r : SignupRequest) (rs : List SignupRequest)
    → count_by q (insert_request r rs) ≡ (if q r then 1 else 0) + count_by q rs
unfolding insert_request count_by
count-insert_request q r [] = refl
count-insert_request q r (x ∷ xs) = elim (Bool-cases (ltb x.created_at r.created_at)) [
  | inl e ↦ rw e refl
  | inr e ↦ rw e (omega (arith, count-insert_request q r xs))
]

pub count-newest_first :
    (p q : SignupRequest → Bool) (rs : List SignupRequest)
    → count_by q (newest_first p rs) ≡ count_by (λ r. p r && q r) rs
unfolding newest_first count_by
count-newest_first p q [] = refl
count-newest_first p q (r ∷ rs) = elim (Bool-cases (p r)) [
  | inl e ↦ rw e (
      count-insert_request q r (newest_first p rs)
      ∙ ap (λ n. (if q r then 1 else 0) + n) (count-newest_first p q rs))
  | inr e ↦ rw e (omega (arith, count-newest_first p q rs))
]

-- The requests of the status asked for.
abbrev pub HasStatus : Option SignupStatus → SignupRequest → Type 0
HasStatus none r = Unit {0}
HasStatus (some s) r = r.status ≡ s

same_status_refl : (s : SignupStatus) → same_status s s ≡ true
same_status_refl s = ground arith

same_status→≡ : (a b : SignupStatus) → same_status a b ≡ true → a ≡ b
same_status→≡ a b h = ground arith

pub wanted-HasStatus :
    (filter : Option SignupStatus) (r : SignupRequest)
    → (wanted filter r ≡ true) ↔ HasStatus filter r
wanted-HasStatus none r = ((λ h. tt), (λ h. refl))
wanted-HasStatus (some s) r = ((λ h. same_status→≡ r.status s h), (λ h. rw h (same_status_refl s)))
