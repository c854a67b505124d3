-- ===== src/Auth/Tickets.antt =====
-- The web socket tickets of dashboard/server/src/domains/auth/auth.service.js: the map of used
-- tickets, `cleanupUsedWebSocketTickets`, `createWebSocketTicket` and
-- `verifyAndConsumeWebSocketTicket`. The last one waits for the database between marking a ticket
-- and admitting the user, and other requests run meanwhile: it is two steps here.
use lidar_dashboard.Prelude.{
  ℕ, ◌+◌, ◌/◌, Bool, false, not, ◌&&◌, Option, none, some, List, [], ◌∷◌, ◌++◌, leb, if◌then◌else◌,
}
use lidar_dashboard.Prelude.Text.{Text, codes, text_eq}
use lidar_dashboard.Prelude.Tables.{find_by, any_by, delete_by}
use lidar_dashboard.Auth.Model.{Key, Time, User, Tables, jwt_secret, Claims, Library}
use lidar_dashboard.Auth.Sessions.{is_blank, has_id, same_version, access_claims}

-- An entry of `usedWebSocketTicketStore`; `expires_at` is in seconds.
pub record UsedTicket : Type 0 where
  pub ticket_id : Text
  pub expires_at : ℕ

abbrev pub ws_ticket_expires_in_seconds : ℕ
ws_ticket_expires_in_seconds = 30

abbrev pub is_over : ℕ → UsedTicket → Bool
is_over now_in_seconds t = leb t.expires_at now_in_seconds

abbrev pub has_ticket_id : Text → UsedTicket → Bool
has_ticket_id i t = text_eq t.ticket_id i

unfoldable pub cleanup_used_web_socket_tickets : ℕ → List UsedTicket → List UsedTicket
cleanup_used_web_socket_tickets now_in_seconds store = delete_by (is_over now_in_seconds) store

unfoldable pub create_web_socket_ticket : Library → User → (jti : Text) → Time → Text
create_web_socket_ticket l u jti now =
    l.sign jwt_secret (record (access_claims u) { type = some (codes "ws"); jti = some jti }) now
      ws_ticket_expires_in_seconds

-- A ticket that is marked as used and waits for its user.
pub record Pending : Type 0 where
  pub jti : Text
  pub id : Key
  pub session_version : Option ℕ

abbrev pub is_ws : Option Text → Bool
is_ws none = false
is_ws (some t) = text_eq t (codes "ws")

abbrev pub expiry : Option ℕ → Time → ℕ
expiry (some e) now = e
expiry none now = now / 1000 + ws_ticket_expires_in_seconds

-- The checks of the claims, up to the look-up in the map.
unfoldable pub ticket_of : Claims → Option Pending
ticket_of c = if not (is_ws c.type) then none else elim c.jti [
  | none ↦ none
  | some j ↦ elim c.id [
    | none ↦ none
    | some i ↦ some (record { jti = j; id = i; session_version = c.session_version })
  ]
]

-- `set` of an id that the map does not have.
unfoldable pub mark_used : List UsedTicket → Pending → ℕ → List UsedTicket × Option Pending
mark_used store p expires_at =
    if any_by (has_ticket_id p.jti) store
    then (store, none)
    else (store ++ record { ticket_id = p.jti; expires_at = expires_at } ∷ [], some p)

-- The part before the database is asked. `none` is the 401.
unfoldable pub begin_consume :
    Library → List UsedTicket → Text → Time → List UsedTicket × Option Pending
begin_consume l store ticket now =
    if is_blank ticket
    then (store, none)
    else (let cleaned = cleanup_used_web_socket_tickets (now / 1000) store in
        elim (l.verify jwt_secret now ticket) [
          | none ↦ (cleaned, none)
          | some c ↦ elim (ticket_of c) [
            | none ↦ (cleaned, none)
            | some p ↦ mark_used cleaned p (expiry c.exp now)
          ]
        ])

-- The user of a ticket, if the ticket's session is still the user's.
unfoldable pub ticket_user : Tables → Pending → Option User
ticket_user db p = elim (find_by (has_id p.id) db.users) [
  | none ↦ none
  | some u ↦
      if u.is_active && same_version p.session_version u.session_version then some u else none
]

-- The part after it: a ticket whose user is not admitted may be used again.
unfoldable pub finish_consume : Tables → List UsedTicket → Pending → List UsedTicket × Option User
finish_consume db store p = elim (ticket_user db p) [
  | none ↦ (delete_by (has_ticket_id p.jti) store, none)
  | some u ↦ (store, some u)
]
