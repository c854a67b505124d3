-- ===== src/Auth/Tests.antt =====
-- Runs of the sessions, and their theorems at concrete inputs.
use lidar_dashboard.Prelude.{
  ◌/◌, ◌<◌, ◌≤◌, ◌≡◌, refl, sym, ap, inl, inr, ◌&&◌, true, Option, none, some, [], ◌∷◌, ◌++◌, arith,
  ltb, ltb→lt, if◌then◌else◌, Bool-cases,
}
use lidar_dashboard.Prelude.Text.{Text, codes, text_eq, trim, to_lower}
use lidar_dashboard.Prelude.Tables.{find_by, update_by, count_by, any_by, delete_by}
use lidar_dashboard.Auth.Model.{Time, Tables, Claims, Library, Unexpired}
use lidar_dashboard.Auth.Samples.{plain_claims, plain, plain-Lawful, operator}
use lidar_dashboard.Auth.Sessions.{
  live_of, hashed, logged_in, create_access_token, LoginAnswer, signed_in, refused, sign_in,
  check_credentials, login, refresh_access_token, logout, bearer_token, claimed_user,
  authenticate_token,
}
use lidar_dashboard.Auth.RefreshTokens.{login-one_live}
use lidar_dashboard.Auth.LoggedOut.{logout-refresh_access_token}
use lidar_dashboard.Auth.LoggedOut
use lidar_dashboard.Auth.SessionEnd.{user_at}
use lidar_dashboard.Auth.ClaimedUser.{login-authenticate_token}
use lidar_dashboard.Auth.Refresh.{login-refresh_access_token}
use lidar_dashboard.Auth.Tickets.{
  cleanup_used_web_socket_tickets, Pending, ticket_of, mark_used, begin_consume, ticket_user,
  finish_consume,
}
use lidar_dashboard.Auth.TicketUse.{Server, begun, finished, times_admitted}
use lidar_dashboard.Auth.TicketOnce.{Dated, started, Reach-times_admitted}
use lidar_dashboard.Auth.TicketUse

sessions : Unit {0}
unfolding login sign_in check_credentials create_access_token refresh_access_token logout
    bearer_token claimed_user authenticate_token text_eq trim to_lower find_by update_by count_by
    any_by delete_by cleanup_used_web_socket_tickets ticket_of mark_used begin_consume ticket_user
    finish_consume
sessions = tt

abbrev tables : Tables
tables = record { users = operator ∷ []; refresh_tokens = [] }

abbrev answer : LoginAnswer
answer = record {
  access_token = 3602 ∷ 4 ∷ 2 ∷ [];
  refresh_token = 604802 ∷ 4 ∷ 0 ∷ 7 ∷ [];
  id = 4;
  user_id = codes "kim";
  name = codes "Kim";
  role = codes "manager";
}

login_test : (login plain tables (codes "kim") (codes "secret") (7 ∷ []) 2000).1 ≡ signed_in answer
unfolding sessions
login_test = refl

refused_test : (login plain tables (codes "kim") (codes "wrong") (7 ∷ []) 2000).1 ≡ refused
unfolding sessions
refused_test = refl

abbrev after_login : Tables
after_login = (login plain tables (codes "kim") (codes "secret") (7 ∷ []) 2000).0

login-one_live_example : count_by (live_of 4) after_login.refresh_tokens ≡ 1
login-one_live_example =
    login-one_live plain tables (codes "kim") (codes "secret") (7 ∷ []) 2000 answer login_test

stored_test : any_by (hashed answer.refresh_token) after_login.refresh_tokens ≡ true
unfolding sessions
stored_test = refl

logout-refresh_access_token_example :
    refresh_access_token plain
      (logout plain after_login answer.refresh_token 5000)
      answer.refresh_token
      6000
    ≡ none
logout-refresh_access_token_example =
    logout-refresh_access_token plain after_login
      (logout plain after_login answer.refresh_token 5000) answer.refresh_token 5000 6000 refl
      stored_test LoggedOut.here

operator_test : user_at 4 tables ≡ some operator
unfolding sessions
operator_test = refl

login-refresh_access_token_example :
    refresh_access_token plain after_login answer.refresh_token 9000
    ≡ some (create_access_token plain (logged_in 2000 operator) 9000)
login-refresh_access_token_example =
    login-refresh_access_token plain plain-Lawful tables (codes "kim") (codes "secret") (7 ∷ [])
      2000 9000 answer operator login_test operator_test refl (omega arith)

abbrev old_header : Text
old_header = codes "Bearer " ++ 3000 ∷ 4 ∷ 1 ∷ []

old_header_test : authenticate_token plain tables old_header 1000 ≡ some operator
unfolding sessions
old_header_test = refl

login-authenticate_token_example : authenticate_token plain after_login old_header 3000 ≡ none
login-authenticate_token_example =
    login-authenticate_token plain plain-Lawful tables after_login old_header (codes "kim")
      (codes "secret") (7 ∷ []) 1000 2000 3000 operator answer old_header_test login_test refl
      LoggedOut.here

-- A library that knows one ticket.
abbrev one_ticket : Text
one_ticket = 30 ∷ 4 ∷ 1 ∷ 9 ∷ []

abbrev one_verify : Time → Text → Option Claims
one_verify now token =
    if text_eq token one_ticket && ltb (now / 1000) 30
    then some (plain_claims 30 4 1 (9 ∷ []))
    else none

abbrev one : Library
one = record plain { verify = λ s now token. one_verify now token }

one-claims :
    (now : Time) (token : Text) (c : Claims)
    → one_verify now token ≡ some c
    → (c.exp ≡ some 30) × (now / 1000 < 30)
one-claims now token c h = elim (Bool-cases (text_eq token one_ticket && ltb (now / 1000) 30)) [
  | inr k ↦ (let j = rw k at h in absurd (cc))
  | inl k ↦
      (let j = rw k at h in
        let same : plain_claims 30 4 1 (9 ∷ []) ≡ c = cc in
        (sym (ap (λ (x : Claims). x.exp) same), ltb→lt (now / 1000) 30 (ground arith)))
]

one-Unexpired : Unexpired one
one-Unexpired s now token c e h k =
    let (exp, early) = one-claims now token c h in let same : e ≡ 30 = cc in omega arith

one-Dated : Dated one (9 ∷ []) 30
one-Dated now token c h k = (one-claims now token c h).0

abbrev ticket_marked : Server
ticket_marked = begun one one_ticket (started 1000)

abbrev waiting_ticket : Pending
waiting_ticket = record { jti = 9 ∷ []; id = 4; session_version = some 1 }

waiting_test : ticket_marked.waiting ≡ waiting_ticket ∷ []
unfolding sessions
waiting_test = refl

abbrev connected : Server
connected = finished tables [] waiting_ticket [] ticket_marked

connected_test : times_admitted (9 ∷ []) connected ≡ 1
unfolding sessions
connected_test = refl

used_again : TicketUse.Reach one (started 1000) (begun one one_ticket connected)
used_again = TicketUse.step (TicketUse.begins one_ticket (started 1000)) (
    TicketUse.step (TicketUse.finishes tables [] waiting_ticket [] ticket_marked waiting_test)
      (TicketUse.step (TicketUse.begins one_ticket connected) TicketUse.here))

Reach-times_admitted_example : times_admitted (9 ∷ []) (begun one one_ticket connected) ≤ 1
Reach-times_admitted_example =
    Reach-times_admitted one one-Unexpired (9 ∷ []) 30 1000 (begun one one_ticket connected)
      one-Dated used_again
