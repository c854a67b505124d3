-- ===== src/Codes/Honest.antt =====
-- What each request has to do with the tokens for a new password.
use lidar_dashboard.Prelude.{
  ℕ, ◌≤◌, ◌≡◌, refl, inl, inr, Bool, true, false, not, ◌||◌, Option, none, some, arith, leb, ◌==◌,
  if◌then◌else◌, Bool-cases,
}
use lidar_dashboard.Prelude.Text.{Text, trim}
use lidar_dashboard.Auth.Model.{Key, Time, User}
use lidar_dashboard.Auth.Sessions.{is_blank}
use lidar_dashboard.Accounts.Passwords.{Hashing}
use lidar_dashboard.Accounts.Policy.{is_email, is_valid_password, normalize_email}
use lidar_dashboard.Accounts.Reply.{ok, http_error}
use lidar_dashboard.Codes.Model.{password_reset, signup, EmailVerification}
use lidar_dashboard.Codes.Calls.{
  Call, clean_up, reserve, remove, claim, consume, confirm, code_max_attempts,
}
use lidar_dashboard.Codes.Clients.{
  Client, finish, find_latest, find_verification, find_user, is_taken, write, compare, CodeResult,
  done, reset_token, ResetTokens, request_password_reset_code, is_code, is_over, code_expiry,
  generic, use_code, check_code, verify_password_reset_code, valid_email, send_signup_email_code,
  verify_signup_email_code, is_verified, is_active_user, confirm_claims, claims_of,
  confirm_password_reset,
}
use lidar_dashboard.Codes.Run.{
  Arrival, request_reset, verify_reset, confirm_reset, send_signup, verify_signup, client_of,
}
use lidar_dashboard.Codes.Counting.{count_of}
use lidar_dashboard.Codes.Limits.{is_consume_of}

-- A request that ended with a token for a verification.
abbrev pub holds : Key → Client → Bool
holds i (finish (ok (reset_token t j))) = j == i
holds i _ = false

-- A request that gets a token for a verification nowhere but where it uses the code up.
abbrev pub Honest : Key → Client → Type 0
Honest i (finish r) = Unit {0}
Honest i (find_latest email purpose k) =
    (o : Option EmailVerification) → Honest i (k o) × (holds i (k o) ≡ false)
Honest i (find_verification j k) =
    (o : Option EmailVerification) → Honest i (k o) × (holds i (k o) ≡ false)
Honest i (find_user email k) = (o : Option User) → Honest i (k o) × (holds i (k o) ≡ false)
Honest i (is_taken email now k) = (b : Bool) → Honest i (k b) × (holds i (k b) ≡ false)
Honest i (compare j code hash k) = (b : Bool) → Honest i (k b) × (holds i (k b) ≡ false)
Honest i (write c k) =
    (n : Option ℕ)
    → Honest i (k n) × ((if holds i (k n) then 1 else 0) ≤ count_of (is_consume_of i) c n)

-- Clean: without a token so far.
abbrev pub Clean : Key → Client → Type 0
Clean i c = Honest i c × (holds i c ≡ false)

failed : (i : Key) (n : ℕ) → Clean i (finish (http_error n))
failed i n = (tt, refl)

module _ (i : Key) (c : Call) where
  -- A write after which there is no token.
  write-Clean : (k : Option ℕ → Client) → ((n : Option ℕ) → Clean i (k n)) → Clean i (write c k)
  write-Clean k clean = ((λ n. ((clean n).0, rw (clean n).1 (omega arith))), refl)

either-Clean :
    (i : Key) (b : Bool) (c d : Client) → Clean i c → Clean i d → Clean i (if b then c else d)
either-Clean i true c d h k = h
either-Clean i false c d h k = k

option-Clean :
    {A : Type 0} (i : Key) (d : Client) (k : A → Client) (o : Option A)
    → Clean i d
    → ((a : A) → Clean i (k a))
    → Clean i (elim o [ none ↦ d | some a ↦ k a ])
option-Clean i d k none h clean = h
option-Clean i d k (some a) h clean = clean a

-- The result of a check of a code, for its row.
abbrev IsFor : EmailVerification → CodeResult → Type 0
IsFor v done = Unit {0}
IsFor v (reset_token t j) = j ≡ v.id

consumed-Honest :
    (i : Key) (v : EmailVerification) (now : Time) (result : CodeResult) (m : ℕ)
    → IsFor v result
    → Honest i (if m == 1 then finish (ok result) else finish (http_error 400))
      × ((if holds i (if m == 1 then finish (ok result) else finish (http_error 400)) then 1 else 0)
          ≤ count_of (is_consume_of i) (consume v.id now) (some m))
consumed-Honest i v now done m for = elim (Bool-cases (m == 1)) [
  | inl e ↦ rw e (tt, omega arith)
  | inr e ↦ rw e (tt, omega arith)
]
consumed-Honest i v now (reset_token t j) m for = elim (Bool-cases (m == 1)) [
  | inl e ↦ rw (e, for) (tt, ground arith)
  | inr e ↦ rw e (tt, omega arith)
]

consume-Honest :
    (i : Key) (v : EmailVerification) (now : Time) (result : CodeResult) (q : Option ℕ)
    → IsFor v result
    → Honest i (elim q [
      | none ↦ finish (http_error 400)
      | some m ↦ if m == 1 then finish (ok result) else finish (http_error 400)
    ])
      × ((if holds i (elim q [
        | none ↦ finish (http_error 400)
        | some m ↦ if m == 1 then finish (ok result) else finish (http_error 400)
      ])
            then 1
            else 0)
          ≤ count_of (is_consume_of i) (consume v.id now) q)
consume-Honest i v now result none for = (tt, omega arith)
consume-Honest i v now result (some m) for = consumed-Honest i v now result m for

use_code-Clean :
    (i : Key) (code : Text) (v : EmailVerification) (now : Time) (result : CodeResult)
    → IsFor v result
    → Clean i (use_code code v now result)
unfolding use_code
use_code-Clean i code v now result for = write-Clean i (claim v.id) _ (λ r.
    option-Clean i _ _ r (failed i 429) (λ n. either-Clean i (not (n == 1)) _ _ (failed i 429) (
      (
        (λ same.
            either-Clean i (not same) _ _ (failed i 400)
              ((λ q. consume-Honest i v now result q for), refl)),
        refl,
      ))))

check_code-Clean :
    (i : Key) (code : Text) (o : Option EmailVerification) (now : Time)
    (result : EmailVerification → CodeResult)
    → ((v : EmailVerification) → IsFor v (result v))
    → Clean i (check_code code o now result)
unfolding check_code
check_code-Clean i code none now result for = failed i 400
check_code-Clean i code (some v) now result for =
    either-Clean i (is_over now v) _ _ (failed i 400) (
      either-Clean i (leb code_max_attempts v.attempts) _ _ (failed i 429)
        (use_code-Clean i code v now (result v) (for v)))

-- Every request that comes in starts without a token and is honest.
pub client_of-Clean :
    (i : Key) (h : Hashing) (t : ResetTokens) (a : Arrival) → Clean i (client_of h t a)
unfolding client_of request_password_reset_code verify_password_reset_code send_signup_email_code
    verify_signup_email_code confirm_password_reset confirm_claims
client_of-Clean i h t (request_reset email code delivered now) =
    write-Clean i (clean_up now) _ (λ n.
      either-Clean i (not (is_email (normalize_email email))) _ _ (tt, refl)
        (
          (λ u.
              either-Clean i (not (is_active_user u)) _ _ (tt, refl)
                (write-Clean i
                  (reserve (normalize_email email) password_reset (h.hash_password code) now
                    (code_expiry now))
                  _
                  (λ r.
                    option-Clean i _ _ r (tt, refl)
                      (λ j.
                        either-Clean i delivered _ _ (tt, refl)
                          (write-Clean i (remove j) (λ x. generic) (λ n. (tt, refl))))))),
          refl,
        ))
client_of-Clean i h t (verify_reset email code now) =
    either-Clean i (not (is_code (trim code))) _ _ (failed i 400)
      ((λ o. check_code-Clean i (trim code) o now _ (λ v. refl)), refl)
client_of-Clean i h t (confirm_reset token new_password now) =
    either-Clean i (is_blank token || not (is_valid_password new_password)) _ _ (failed i 400) (
      option-Clean i _ _ (claims_of t token now) (failed i 400) (λ x. (
        (λ v. either-Clean i (not (is_verified x.0 v)) _ _ (failed i 400) (
          (λ o. option-Clean i _ _ o (failed i 400) (λ u.
              either-Clean i (not u.is_active) _ _ (failed i 400) (
                write-Clean i (confirm x.1 x.0 u.id (h.hash_password new_password) now) _ (λ r.
                  option-Clean i _ _ r (failed i 400)
                    (λ n. either-Clean i (n == 1) _ _ (tt, refl) (failed i 400)))))),
          refl,
        )),
        refl,
      )))
client_of-Clean i h t (send_signup email code delivered now) =
    either-Clean i (not (valid_email (normalize_email email))) _ _ (failed i 400) (
      (λ taken. either-Clean i taken _ _ (failed i 409) (
          write-Clean i
            (reserve (normalize_email email) signup (h.hash_password code) now (code_expiry now)) _
            (λ r. option-Clean i _ _ r (failed i 429) (λ j.
              either-Clean i delivered _ _ (tt, refl)
                (write-Clean i (remove j) (λ x. finish (http_error 502)) (λ n. failed i 502)))))),
      refl,
    )
client_of-Clean i h t (verify_signup email code now) =
    either-Clean i (not (valid_email (normalize_email email))) _ _ (failed i 400) (
      either-Clean i (not (is_code (trim code))) _ _ (failed i 400)
        ((λ o. check_code-Clean i (trim code) o now _ (λ v. tt)), refl))
