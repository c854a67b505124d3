-- ===== src/Codes/Limits.antt =====
-- How often an attempt at a code is taken and how often a code is used up over the life of the server.
use lidar_dashboard.Prelude.{
  ℕ, ◌+◌, ◌-◌, ◌≤◌, ◌≡◌, refl, Bool, true, false, List, arith, ◌==◌, if◌then◌else◌,
}
use lidar_dashboard.Prelude.Tables.{count_by, sum_by}
use lidar_dashboard.Auth.Model.{Key}
use lidar_dashboard.Accounts.Model.{Database}
use lidar_dashboard.Accounts.Passwords.{Hashing}
use lidar_dashboard.Codes.Model.{EmailVerification, Server}
use lidar_dashboard.Codes.Calls.{
  Call, clean_up, reserve, remove, claim, consume, confirm, can_claim, can_consume, attempted,
  consumed, perform, code_max_attempts,
}
use lidar_dashboard.Codes.Clients.{ResetTokens}
use lidar_dashboard.Codes.Run.{Happening, run, start}
use lidar_dashboard.Codes.Potential.{sum_by-update_by-count_by, IsWeight, weight}
use lidar_dashboard.Codes.Counting.{one, counted, times, run-counted, call-counted}

-- The attempts that the row of a verification has left.
abbrev attempts_left : Key → EmailVerification → ℕ
attempts_left i v = if v.id == i then code_max_attempts - v.attempts else 0

abbrev uses_left : Key → EmailVerification → ℕ
uses_left i v = if can_consume i v then 1 else 0

abbrev pub rows_left : Key → EmailVerification → ℕ
rows_left i v = if v.id == i then 1 else 0

attempts_left-IsWeight : (i : Key) → IsWeight i 5 (attempts_left i)
attempts_left-IsWeight i = record {
  new = λ email purpose hash now expires_at. ground arith;
  other = λ j email purpose hash now expires_at h. rw h refl;
  after_claim = λ v. ground arith;
  after_consume = λ now v. omega arith;
}

uses_left-IsWeight : (i : Key) → IsWeight i 1 (uses_left i)
uses_left-IsWeight i = record {
  new = λ email purpose hash now expires_at. ground arith;
  other = λ j email purpose hash now expires_at h. rw h refl;
  after_claim = λ v. omega arith;
  after_consume = λ now v. ground arith;
}

pub rows_left-IsWeight : (i : Key) → IsWeight i 1 (rows_left i)
rows_left-IsWeight i = record {
  new = λ email purpose hash now expires_at. ground arith;
  other = λ j email purpose hash now expires_at h. rw h refl;
  after_claim = λ v. omega arith;
  after_consume = λ now v. omega arith;
}

abbrev pub is_claim_of : Key → Call → Bool
is_claim_of i (claim j) = j == i
is_claim_of i _ = false

abbrev pub is_consume_of : Key → Call → Bool
is_consume_of i (consume j now) = j == i
is_consume_of i _ = false

abbrev pub is_confirm_of : Key → Call → Bool
is_confirm_of i (confirm j email user hash now) = j == i
is_confirm_of i _ = false

pub one_le : (n : ℕ) → (if n == 1 then 1 else 0) ≤ n
one_le n = ground arith

claim-lowers :
    (i : Key) (c : Call) (s : Server)
    → is_claim_of i c ≡ true
    → weight i 5 (attempts_left i) (perform c s).0 + (if one (perform c s).1 then 1 else 0)
      ≤ weight i 5 (attempts_left i) s
unfolding perform
claim-lowers i (claim j) s h = omega (
  arith,
  one_le (count_by (can_claim j) s.verifications),
  sum_by-update_by-count_by (attempts_left i) (can_claim j) attempted s.verifications
      (λ v k. ground arith),
)
claim-lowers i (clean_up now) s h = absurd (cc)
claim-lowers i (reserve email purpose hash now expires_at) s h = absurd (cc)
claim-lowers i (remove j) s h = absurd (cc)
claim-lowers i (consume j now) s h = absurd (cc)
claim-lowers i (confirm j email user hash now) s h = absurd (cc)

consume-lowers :
    (i : Key) (c : Call) (s : Server)
    → is_consume_of i c ≡ true
    → weight i 1 (uses_left i) (perform c s).0 + (if one (perform c s).1 then 1 else 0)
      ≤ weight i 1 (uses_left i) s
unfolding perform
consume-lowers i (consume j now) s h = omega (
  arith,
  one_le (count_by (can_consume j) s.verifications),
  sum_by-update_by-count_by (uses_left i) (can_consume j) (consumed now) s.verifications
      (λ v k. ground arith),
)
consume-lowers i (clean_up now) s h = absurd (cc)
consume-lowers i (reserve email purpose hash now expires_at) s h = absurd (cc)
consume-lowers i (remove j) s h = absurd (cc)
consume-lowers i (claim j) s h = absurd (cc)
consume-lowers i (confirm j email user hash now) s h = absurd (cc)

pub start-weight :
    (i : Key) (cap : ℕ) (f : EmailVerification → ℕ) (database : Database)
    → weight i cap f (start database).server ≤ cap
unfolding sum_by
start-weight i cap f database = ground arith

-- At most five attempts are taken for one code.
pub run-claim :
    (h : Hashing) (t : ResetTokens) (i : Key) (database : Database) (es : List Happening)
    → times (is_claim_of i) (run h t (start database) es).log ≤ 5
unfolding sum_by
run-claim h t i database es = omega (
  arith,
  run-counted h t i 5 (attempts_left i) (counted (is_claim_of i)) (attempts_left-IsWeight i)
      (λ j. refl)
      (call-counted i 5 (attempts_left i) (is_claim_of i) (attempts_left-IsWeight i)
        (claim-lowers i))
      (start database) es,
  start-weight i 5 (attempts_left i) database,
)

-- At most one request uses a code up.
pub run-consume :
    (h : Hashing) (t : ResetTokens) (i : Key) (database : Database) (es : List Happening)
    → times (is_consume_of i) (run h t (start database) es).log ≤ 1
unfolding sum_by
run-consume h t i database es = omega (
  arith,
  run-counted h t i 1 (uses_left i) (counted (is_consume_of i)) (uses_left-IsWeight i) (λ j. refl)
      (call-counted i 1 (uses_left i) (is_consume_of i) (uses_left-IsWeight i) (consume-lowers i))
      (start database) es,
  start-weight i 1 (uses_left i) database,
)
