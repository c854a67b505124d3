-- ===== src/Auth/TicketUse.antt =====
-- A web socket ticket admits at most once, however the requests interleave.
use lidar_dashboard.Prelude.{
  ℕ, ◌+◌, ◌/◌, ◌≤◌, ◌≡◌, refl, ap, ◌∙◌, ◌⊎◌, inl, inr, Bool, true, false, not, ◌&&◌, Option, none,
  some, List, [], ◌∷◌, ◌++◌, arith, leb, ◌==◌, Bool-cases, Option-cases,
}
use lidar_dashboard.Prelude.Text.{Text, text_eq}
use lidar_dashboard.Prelude.Tables.{any_by, delete_by, count_by}
use lidar_dashboard.Auth.Model.{Time, User, Tables, jwt_secret, Claims, Library}
use lidar_dashboard.Auth.Sessions.{is_blank}
use lidar_dashboard.Auth.Tickets.{
  UsedTicket, is_over, has_ticket_id, cleanup_used_web_socket_tickets, Pending, expiry, is_ws,
  ticket_of, mark_used, begin_consume, finish_consume,
}

-- The server between two steps: the map, the tickets that wait, the ids of the tickets that were
-- admitted, and the time.
pub record Server : Type 0 where
  pub store : List UsedTicket
  pub waiting : List Pending
  pub admitted : List Text
  pub now : Time

abbrev pub wait_for : Option Pending → List Pending → List Pending
wait_for none ps = ps
wait_for (some p) ps = p ∷ ps

abbrev pub begun : Library → Text → Server → Server
begun l ticket v = record v {
  store = (begin_consume l v.store ticket v.now).0;
  waiting = wait_for (begin_consume l v.store ticket v.now).1 v.waiting;
}

abbrev pub admit : Option User → Text → List Text → List Text
admit none j admitted = admitted
admit (some u) j admitted = j ∷ admitted

abbrev pub finished : Tables → List Pending → Pending → List Pending → Server → Server
finished db before p after v = record v {
  store = (finish_consume db v.store p).0;
  waiting = before ++ after;
  admitted = admit (finish_consume db v.store p).1 p.jti v.admitted;
}

-- A request comes in; the answer of the database, in any state, comes back for one that waits; a
-- ticket is issued, which cleans the map up; time passes.
pub data Step (l : Library) : Server → Server → Type 0 where
  begins : (ticket : Text) (v : Server) → Step l v (begun l ticket v)
  finishes :
      (db : Tables) (before : List Pending) (p : Pending) (after : List Pending) (v : Server)
      → v.waiting ≡ before ++ p ∷ after
      → Step l v (finished db before p after v)
  issues :
      (v : Server)
      → Step l v (record v { store = cleanup_used_web_socket_tickets (v.now / 1000) v.store })
  waits : (later : Time) (v : Server) → v.now ≤ later → Step l v (record v { now = later })

pub data Reach (l : Library) : Server → Server → Type 0 where
  here : {v : Server} → Reach l v v
  step : {u v w : Server} → Step l u v → Reach l v w → Reach l u w

abbrev pub has_jti : Text → Pending → Bool
has_jti j p = text_eq p.jti j

abbrev pub times_admitted : Text → Server → ℕ
times_admitted j v = count_by (λ i. text_eq i j) v.admitted

-- The entry that keeps a ticket from being used again.
abbrev pub marks : Text → ℕ → UsedTicket → Bool
marks j e t = text_eq t.ticket_id j && t.expires_at == e

pub record Once (j : Text) (e : ℕ) (v : Server) : Type 0 where
  pub few : count_by (has_jti j) v.waiting + times_admitted j v ≤ 1
  pub kept :
      (count_by (has_jti j) v.waiting + times_admitted j v ≡ 0)
      ⊎ ((any_by (marks j e) v.store ≡ true) ⊎ (e ≤ v.now / 1000))

pub any_by-delete_by :
    (p q : UsedTicket → Bool) (ts : List UsedTicket)
    → ((t : UsedTicket) → q t ≡ true → p t ≡ false)
    → any_by q ts ≡ true
    → any_by q (delete_by p ts) ≡ true
unfolding any_by delete_by
any_by-delete_by p q [] h k = k
any_by-delete_by p q (t ∷ ts) h k = ground (arith, h t, any_by-delete_by p q ts h)

pub any_by-append_left :
    (q : UsedTicket → Bool) (ts us : List UsedTicket)
    → any_by q ts ≡ true
    → any_by q (ts ++ us) ≡ true
unfolding any_by
any_by-append_left q [] us h = absurd (cc)
any_by-append_left q (t ∷ ts) us h = ground (arith, any_by-append_left q ts us)

pub any_by-append_last :
    (q : UsedTicket → Bool) (ts : List UsedTicket) (u : UsedTicket)
    → q u ≡ true
    → any_by q (ts ++ u ∷ []) ≡ true
unfolding any_by
any_by-append_last q [] u h = rw h refl
any_by-append_last q (t ∷ ts) u h = ground (arith, any_by-append_last q ts u h)

pub marks-has :
    (j : Text) (e : ℕ) (ts : List UsedTicket)
    → any_by (marks j e) ts ≡ true
    → any_by (has_ticket_id j) ts ≡ true
unfolding any_by
marks-has j e [] h = h
marks-has j e (t ∷ ts) h = ground (arith, marks-has j e ts)

-- Cleaning up keeps the entry while the ticket is valid.
pub cleanup-kept :
    (j : Text) (e now : ℕ) (ts : List UsedTicket)
    → any_by (marks j e) ts ≡ true
    → (any_by (marks j e) (cleanup_used_web_socket_tickets now ts) ≡ true) ⊎ (e ≤ now)
unfolding cleanup_used_web_socket_tickets
cleanup-kept j e now ts h = elim (Bool-cases (leb e now)) [
  | inl k ↦ inr (ground arith)
  | inr k ↦ inl (any_by-delete_by (is_over now) (marks j e) ts (λ t m. ground arith) h)
]

-- How a request can begin.
pub data Begun (l : Library) (store : List UsedTicket) (ticket : Text) (now : Time) : Type 0 where
  ignored : begin_consume l store ticket now ≡ (store, none) → Begun l store ticket now
  turned_down :
      begin_consume l store ticket now ≡ (cleanup_used_web_socket_tickets (now / 1000) store, none)
      → Begun l store ticket now
  marked :
      (c : Claims) (p : Pending)
      → l.verify jwt_secret now ticket ≡ some c
      → c.jti ≡ some p.jti
      → any_by (has_ticket_id p.jti) (cleanup_used_web_socket_tickets (now / 1000) store) ≡ false
      → begin_consume l store ticket now ≡ (
        cleanup_used_web_socket_tickets (now / 1000) store
            ++ record { ticket_id = p.jti; expires_at = expiry c.exp now } ∷ [],
        some p,
      )
      → Begun l store ticket now

ticket_of-jti : (c : Claims) (p : Pending) → ticket_of c ≡ some p → c.jti ≡ some p.jti
unfolding ticket_of
ticket_of-jti c p h = elim (Bool-cases (not (is_ws c.type))) [
  | inl e ↦ (let k = rw (e, ticket_of) at h in absurd (cc))
  | inr e ↦ elim (Option-cases c.jti) [
    | inl m ↦ (let k = rw (e, m, ticket_of) at h in absurd (cc))
    | inr (j, m) ↦ elim (Option-cases c.id) [
      | inl n ↦ (let k = rw (e, m, n, ticket_of) at h in absurd (cc))
      | inr (i, n) ↦
          (let k = rw (e, m, n, ticket_of) at h in
            let same : record { jti = j; id = i; session_version = c.session_version } ≡ p = cc in
            m ∙ ap (λ (q : Pending). some q.jti) same)
    ]
  ]
]

pub begin-Begun :
    (l : Library) (store : List UsedTicket) (ticket : Text) (now : Time) → Begun l store ticket now
unfolding begin_consume mark_used
begin-Begun l store ticket now =
    let cleaned = cleanup_used_web_socket_tickets (now / 1000) store in
    elim (Bool-cases (is_blank ticket)) [
      | inl e ↦ ignored (rw (e, begin_consume) refl)
      | inr e ↦ elim (Option-cases (l.verify jwt_secret now ticket)) [
        | inl k ↦ turned_down (rw (e, k, begin_consume) refl)
        | inr (c, k) ↦ elim (Option-cases (ticket_of c)) [
          | inl m ↦ turned_down (rw (e, k, m, begin_consume) refl)
          | inr (p, m) ↦ elim (Bool-cases (any_by (has_ticket_id p.jti) cleaned)) [
            | inl n ↦ turned_down (rw (e, k, m, begin_consume, n) refl)
            | inr n ↦ marked c p k (ticket_of-jti c p m) n (rw (e, k, m, begin_consume, n) refl)
          ]
        ]
      ]
    ]
