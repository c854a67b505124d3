-- ===== src/Codes/Guarded.antt =====
-- The requests on codes, with the comparisons that they may make for the attempts that they take.
use lidar_dashboard.Prelude.{
  ℕ, ◌+◌, ◌-◌, ◌≤◌, ◌≡◌, inl, inr, Bool, true, false, not, ◌&&◌, ◌||◌, Option, none, some, arith,
  leb, ◌==◌, if◌then◌else◌, Bool-cases,
}
use lidar_dashboard.Prelude.Text.{Text, trim}
use lidar_dashboard.Auth.Model.{Key, Time, User}
use lidar_dashboard.Auth.Sessions.{is_blank}
use lidar_dashboard.Accounts.Passwords.{Hashing}
use lidar_dashboard.Accounts.Policy.{is_email, is_valid_password, normalize_email}
use lidar_dashboard.Accounts.Reply.{ok, http_error}
use lidar_dashboard.Codes.Model.{password_reset, signup, EmailVerification}
use lidar_dashboard.Codes.Calls.{
  Call, clean_up, reserve, remove, consume, confirm, code_max_attempts,
}
use lidar_dashboard.Codes.Clients.{
  Client, finish, find_latest, find_verification, find_user, is_taken, write, compare, CodeResult,
  ResetTokens, request_password_reset_code, is_code, is_over, code_expiry, generic, use_code,
  check_code, verify_password_reset_code, valid_email, send_signup_email_code,
  verify_signup_email_code, is_verified, is_active_user, confirm_claims, claims_of,
  confirm_password_reset,
}
use lidar_dashboard.Codes.Run.{
  Arrival, request_reset, verify_reset, confirm_reset, send_signup, verify_signup, client_of,
}
use lidar_dashboard.Codes.Counting.{count_of}
use lidar_dashboard.Codes.Limits.{is_claim_of}

-- A request that compares no more than `n` codes with that of `i`, and one more for each attempt
-- that it takes first.
abbrev pub Guarded : Key → ℕ → Client → Type 0
Guarded i n (finish r) = Unit {0}
Guarded i n (find_latest email purpose k) = (o : Option EmailVerification) → Guarded i n (k o)
Guarded i n (find_verification j k) = (o : Option EmailVerification) → Guarded i n (k o)
Guarded i n (find_user email k) = (o : Option User) → Guarded i n (k o)
Guarded i n (is_taken email now k) = (b : Bool) → Guarded i n (k b)
Guarded i n (write c k) = (r : Option ℕ) → Guarded i (n + count_of (is_claim_of i) c r) (k r)
Guarded i n (compare j code hash k) =
    ((if j == i then 1 else 0) ≤ n) × ((b : Bool) → Guarded i (n - (if j == i then 1 else 0)) (k b))

-- Guarded without any attempt taken so far.
abbrev pub Fresh : Key → Client → Type 0
Fresh i c = (n : ℕ) → Guarded i n c

ended : (i : Key) (n : ℕ) → Fresh i (finish (http_error n))
ended i n m = tt

either-Fresh :
    (i : Key) (b : Bool) (c d : Client) → Fresh i c → Fresh i d → Fresh i (if b then c else d)
either-Fresh i true c d h k = h
either-Fresh i false c d h k = k

option-Fresh :
    {A : Type 0} (i : Key) (d : Client) (k : A → Client) (o : Option A)
    → Fresh i d
    → ((a : A) → Fresh i (k a))
    → Fresh i (elim o [ none ↦ d | some a ↦ k a ])
option-Fresh i d k none h fresh = h
option-Fresh i d k (some a) h fresh = fresh a

write-Fresh :
    (i : Key) (c : Call) (k : Option ℕ → Client)
    → ((r : Option ℕ) → Fresh i (k r))
    → Fresh i (write c k)
write-Fresh i c k fresh n r = fresh r (n + count_of (is_claim_of i) c r)

-- What follows the comparison.
compared-Fresh :
    (i : Key) (v : EmailVerification) (now : Time) (result : CodeResult) (same : Bool)
    → Fresh i (
        if not same
        then finish (http_error 400)
        else write (consume v.id now) λ q. elim q [
          | none ↦ finish (http_error 400)
          | some m ↦ if m == 1 then finish (ok result) else finish (http_error 400)
        ])
compared-Fresh i v now result same = either-Fresh i (not same) _ _ (ended i 400) (
    write-Fresh i (consume v.id now) _ (λ q.
      option-Fresh i _ _ q (ended i 400)
        (λ m. either-Fresh i (m == 1) _ _ (λ n. tt) (ended i 400))))

-- The attempt that was taken pays for the comparison.
claim_pays :
    (b : Bool) (n m : ℕ)
    → (m == 1) ≡ true
    → (if b then 1 else 0) ≤ n + (if b && m == 1 then 1 else 0)
claim_pays b n m h = ground arith

use_code-Fresh :
    (i : Key) (code : Text) (v : EmailVerification) (now : Time) (result : CodeResult)
    → Fresh i (use_code code v now result)
unfolding use_code
use_code-Fresh i code v now result n none = tt
use_code-Fresh i code v now result n (some m) = elim (Bool-cases (m == 1)) [
  | inl e ↦
      let paid = claim_pays (v.id == i) n m e in
      rw e (rw e at paid, λ b. compared-Fresh i v now result b _)
  | inr e ↦ rw e tt
]

check_code-Fresh :
    (i : Key) (code : Text) (o : Option EmailVerification) (now : Time)
    (result : EmailVerification → CodeResult)
    → Fresh i (check_code code o now result)
unfolding check_code
check_code-Fresh i code none now result = ended i 400
check_code-Fresh i code (some v) now result = either-Fresh i (is_over now v) _ _ (ended i 400) (
    either-Fresh i (leb code_max_attempts v.attempts) _ _ (ended i 429)
      (use_code-Fresh i code v now (result v)))

generic-Fresh : (i : Key) → Fresh i generic
generic-Fresh i n = tt

-- Every request that comes in is guarded.
pub client_of-Fresh :
    (i : Key) (h : Hashing) (t : ResetTokens) (a : Arrival) → Fresh i (client_of h t a)
unfolding client_of request_password_reset_code verify_password_reset_code send_signup_email_code
    verify_signup_email_code confirm_password_reset confirm_claims
client_of-Fresh i h t (request_reset email code delivered now) =
    write-Fresh i (clean_up now) _ (λ x.
      either-Fresh i (not (is_email (normalize_email email))) _ _ (generic-Fresh i) (λ n u.
        either-Fresh i (not (is_active_user u)) _ _ (generic-Fresh i)
          (write-Fresh i
            (reserve (normalize_email email) password_reset (h.hash_password code) now
              (code_expiry now))
            _
            (λ r. option-Fresh i _ _ r (generic-Fresh i) (λ j.
              either-Fresh i delivered _ _ (generic-Fresh i)
                (write-Fresh i (remove j) (λ y. generic) (λ y. generic-Fresh i)))))
          n))
client_of-Fresh i h t (verify_reset email code now) =
    either-Fresh i (not (is_code (trim code))) _ _ (ended i 400)
      (λ n o. check_code-Fresh i (trim code) o now _ n)
client_of-Fresh i h t (confirm_reset token new_password now) =
    either-Fresh i (is_blank token || not (is_valid_password new_password)) _ _ (ended i 400) (
      option-Fresh i _ _ (claims_of t token now) (ended i 400) (λ x n v.
        either-Fresh i (not (is_verified x.0 v)) _ _ (ended i 400)
          (λ m o.
            option-Fresh i _ _ o (ended i 400)
              (λ u. either-Fresh i (not u.is_active) _ _ (ended i 400) (
                write-Fresh i (confirm x.1 x.0 u.id (h.hash_password new_password) now) _ (λ r.
                  option-Fresh i _ _ r (ended i 400)
                    (λ c. either-Fresh i (c == 1) _ _ (generic-Fresh i) (ended i 400)))))
              m)
          n))
client_of-Fresh i h t (send_signup email code delivered now) =
    either-Fresh i (not (valid_email (normalize_email email))) _ _ (ended i 400) (λ n taken.
      either-Fresh i taken _ _ (ended i 409)
        (write-Fresh i
          (reserve (normalize_email email) signup (h.hash_password code) now (code_expiry now)) _
          (λ r. option-Fresh i _ _ r (ended i 429) (λ j.
            either-Fresh i delivered _ _ (generic-Fresh i)
              (write-Fresh i (remove j) (λ y. finish (http_error 502)) (λ y. ended i 502)))))
        n)
client_of-Fresh i h t (verify_signup email code now) =
    either-Fresh i (not (valid_email (normalize_email email))) _ _ (ended i 400) (
      either-Fresh i (not (is_code (trim code))) _ _ (ended i 400)
        (λ n o. check_code-Fresh i (trim code) o now _ n))
