-- ===== src/Codes/Run.antt =====
-- The requests on codes as they interleave: any number of them, each between two uses of the
-- database or comparisons of a code, and the log of the writes, with what each gave, and of the
-- comparisons.
use lidar_dashboard.Prelude.{
  ℕ, Bool, false, ◌&&◌, ◌||◌, Option, none, some, List, [], ◌∷◌, ◌++◌, get_elem?, set,
}
use lidar_dashboard.Prelude.Text.{Text, text_eq}
use lidar_dashboard.Prelude.Tables.{find_by, any_by, delete_by}
use lidar_dashboard.Auth.Model.{Key, Time, User}
use lidar_dashboard.Accounts.Model.{Database}
use lidar_dashboard.Accounts.Passwords.{Hashing}
use lidar_dashboard.Codes.Model.{
  EmailVerification, SignupRequest, Server, sent_to, latest_by, is_pending,
}
use lidar_dashboard.Codes.Calls.{Call, is_verification, perform}
use lidar_dashboard.Codes.Clients.{
  Client, finish, find_latest, find_verification, find_user, is_taken, write, compare, ResetTokens,
  request_password_reset_code, verify_password_reset_code, confirm_password_reset,
  send_signup_email_code, verify_signup_email_code,
}

-- A line of the log: a call with what it gave and the database before and after it, or a code
-- that was compared with that of a verification.
pub data LogLine : Type 0 where
  called : Call → Option ℕ → (before after : Database) → LogLine
  compared : Key → LogLine

abbrev pub has_email : Text → User → Bool
has_email email u = elim u.email [ none ↦ false | some e ↦ text_eq e email ]

-- `ensureEmailAvailable`.
abbrev pub email_taken : Text → Time → Server → Bool
email_taken email now s =
    any_by (has_email email) s.database.tables.users
    || any_by (λ r. is_pending now r && elim r.email [ none ↦ false | some e ↦ text_eq e email ])
        s.signup_requests

-- One use of the database, or one comparison.
unfoldable pub turn : Hashing → Client → Server → Server × Client × List LogLine
turn h (finish r) s = (s, finish r, [])
turn h (find_latest email purpose k) s =
    (s, k (latest_by (sent_to email purpose) s.verifications), [])
turn h (find_verification i k) s = (s, k (find_by (is_verification i) s.verifications), [])
turn h (find_user email k) s = (s, k (find_by (has_email email) s.database.tables.users), [])
turn h (is_taken email now k) s = (s, k (email_taken email now s), [])
turn h (write c k) s = (
  (perform c s).0,
  k (perform c s).1,
  called c (perform c s).1 s.database (perform c s).0.database ∷ [],
)
turn h (compare i code hash k) s = (s, k (h.compare_password code hash), compared i ∷ [])

-- A request that comes in.
pub data Arrival : Type 0 where
  request_reset : (email code : Text) → (delivered : Bool) → Time → Arrival
  verify_reset : (email code : Text) → Time → Arrival
  confirm_reset : (token new_password : Text) → Time → Arrival
  send_signup : (email code : Text) → (delivered : Bool) → Time → Arrival
  verify_signup : (email code : Text) → Time → Arrival

unfoldable pub client_of : Hashing → ResetTokens → Arrival → Client
client_of h t (request_reset email code delivered now) =
    request_password_reset_code h email code delivered now
client_of h t (verify_reset email code now) = verify_password_reset_code t email code now
client_of h t (confirm_reset token new_password now) =
    confirm_password_reset h t token new_password now
client_of h t (send_signup email code delivered now) =
    send_signup_email_code h email code delivered now
client_of h t (verify_signup email code now) = verify_signup_email_code email code now

pub record World : Type 0 where
  pub server : Server
  pub clients : List Client
  pub log : List LogLine

-- A request comes in, one of them goes on, or something else happens to the users and to the signup
-- requests, which may use up a verification.
pub data Happening : Type 0 where
  arrive : Arrival → Happening
  go_on : (place : ℕ) → Happening
  elsewhere : Database → List SignupRequest → (used : Option Key) → Happening

abbrev pub used_up : Option Key → List EmailVerification → List EmailVerification
used_up none vs = vs
used_up (some i) vs = delete_by (is_verification i) vs

unfoldable pub happen : Hashing → ResetTokens → World → Happening → World
happen h t w (arrive a) = record w { clients = w.clients ++ client_of h t a ∷ [] }
happen h t w (go_on place) = elim (get_elem? w.clients place) [
  | none ↦ w
  | some c ↦ record {
    server = (turn h c w.server).0;
    clients = set w.clients place (turn h c w.server).1;
    log = w.log ++ (turn h c w.server).2;
  }
]
happen h t w (elsewhere database requests used) = record w {
  server = record w.server {
    database = database;
    signup_requests = requests;
    verifications = used_up used w.server.verifications;
  };
}

unfoldable pub run : Hashing → ResetTokens → World → List Happening → World
run h t w [] = w
run h t w (e ∷ es) = run h t (happen h t w e) es

-- Before the first request: no verification, no request.
abbrev pub start : Database → World
start database = record {
  server = record {
    database = database;
    verifications = [];
    signup_requests = [];
    event_logs = [];
    next_id = 0;
  };
  clients = [];
  log = [];
}
