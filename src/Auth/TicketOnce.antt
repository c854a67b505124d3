-- ===== src/Auth/TicketOnce.antt =====
-- At most one connection for each web socket ticket.
use mathlib.Core.Path.{subst}
use lidar_dashboard.Prelude.{
  ℕ, ◌+◌, ◌/◌, ◌≤◌, ◌<◌, ◌≡◌, refl, ap, ◌∙◌, inl, inr, true, false, some, List, [], ◌∷◌, ◌++◌,
  arith, if◌then◌else◌, Bool-cases, Option-cases,
}
use lidar_dashboard.Prelude.Text.{Text, text_eq, text_eq→≡}
use lidar_dashboard.Prelude.Tables.{any_by, count_by, count_by-append}
use lidar_dashboard.Auth.Model.{Time, Tables, jwt_secret, Claims, Library, Unexpired}
use lidar_dashboard.Auth.Tickets.{
  UsedTicket, has_ticket_id, cleanup_used_web_socket_tickets, Pending, expiry, ticket_user,
  finish_consume,
}
use lidar_dashboard.Auth.TicketUse.{
  Once, Reach, Server, Step, any_by-append_last, any_by-append_left, any_by-delete_by, begin-Begun,
  begins, begun, cleanup-kept, finished, finishes, has_jti, here, ignored, issues, marked, marks,
  marks-has, step, times_admitted, turned_down, waits,
}

-- All valid tokens with one ticket id expire at one time, as a ticket is signed once.
abbrev pub Dated : Library → Text → ℕ → Type 0
Dated l j e =
    (now : Time) (token : Text) (c : Claims)
    → l.verify jwt_secret now token ≡ some c
    → c.jti ≡ some j
    → c.exp ≡ some e

module _ (l : Library) (unexpired : Unexpired l) (j : Text) (e : ℕ) (dated : Dated l j e) where
  issued-Once :
      (v : Server)
      → Once j e v
      → Once j e (record v { store = cleanup_used_web_socket_tickets (v.now / 1000) v.store })
  issued-Once v h = record {
    few = h.few;
    kept = elim h.kept [
      | inl n ↦ inl n
      | inr (inl m) ↦ inr (cleanup-kept j e (v.now / 1000) v.store m)
      | inr (inr m) ↦ inr (inr m)
    ];
  }

  -- A ticket with the id is marked only where none was before.
  own-Once :
      (v : Server) (p : Pending) (ticket : Text) (c : Claims)
      → Once j e v
      → l.verify jwt_secret v.now ticket ≡ some c
      → c.jti ≡ some j
      → any_by (has_ticket_id j) (cleanup_used_web_socket_tickets (v.now / 1000) v.store) ≡ false
      → count_by (has_jti j) v.waiting + times_admitted j v ≡ 0
  own-Once v p ticket c h k m free =
      let valid : v.now / 1000 < e =
        unexpired jwt_secret v.now ticket c e k (dated v.now ticket c k m) in
      elim h.kept [
        | inl n ↦ n
        | inr (inr n) ↦ absurd (omega arith)
        | inr (inl n) ↦ elim (cleanup-kept j e (v.now / 1000) v.store n) [
          | inr o ↦ absurd (omega arith)
          | inl o ↦
              let clash =
                marks-has j e (cleanup_used_web_socket_tickets (v.now / 1000) v.store) o in
              absurd (cc)
        ]
      ]

  marked-Once :
      (v : Server) (ticket : Text) (c : Claims) (p : Pending)
      → Once j e v
      → l.verify jwt_secret v.now ticket ≡ some c
      → c.jti ≡ some p.jti
      → any_by (has_ticket_id p.jti) (cleanup_used_web_socket_tickets (v.now / 1000) v.store)
        ≡ false
      → Once j e (record v {
        store =
            cleanup_used_web_socket_tickets (v.now / 1000) v.store
            ++ record { ticket_id = p.jti; expires_at = expiry c.exp v.now } ∷ [];
        waiting = p ∷ v.waiting;
      })
  unfolding count_by
  marked-Once v ticket c p h k m free = elim (Bool-cases (text_eq p.jti j)) [
    | inl same ↦
        let is_j : p.jti ≡ j = text_eq→≡ p.jti j same in
        let jti : c.jti ≡ some j = m ∙ ap some is_j in
        let none_before = own-Once v p ticket c h k jti (
          subst
            (λ x.
              any_by (has_ticket_id x) (cleanup_used_web_socket_tickets (v.now / 1000) v.store)
              ≡ false)
            is_j free) in
        record {
          few = rw same (omega (arith, none_before));
          kept = inr (
              inl (
                any_by-append_last (marks j e)
                  (cleanup_used_web_socket_tickets (v.now / 1000) v.store) _
                  (rw (same, dated v.now ticket c k jti) (ground arith))));
        }
    | inr other ↦ record {
      few = rw other (omega (arith, h.few));
      kept = elim (issued-Once v h).kept [
        | inl n ↦ inl (rw other (omega (arith, n)))
        | inr (inl n) ↦ inr (
            inl (
              any_by-append_left (marks j e)
                (cleanup_used_web_socket_tickets (v.now / 1000) v.store) _ n))
        | inr (inr n) ↦ inr (inr n)
      ];
    }
  ]

  begun-Once : (ticket : Text) (v : Server) → Once j e v → Once j e (begun l ticket v)
  begun-Once ticket v h = elim (begin-Begun l v.store ticket v.now) [
    | ignored b ↦ rw b (record { few = h.few; kept = h.kept })
    | turned_down b ↦ rw b (record { few = (issued-Once v h).few; kept = (issued-Once v h).kept })
    | marked c p k m free b ↦ rw b (marked-Once v ticket c p h k m free)
  ]

  apart :
      (i : Text) (t : UsedTicket)
      → text_eq i j ≡ false
      → marks j e t ≡ true
      → has_ticket_id i t ≡ false
  apart i t h k = elim (Bool-cases (text_eq t.ticket_id i)) [
    | inr n ↦ n
    | inl n ↦
        let is_i : t.ticket_id ≡ i = text_eq→≡ t.ticket_id i n in
        let marked_j : text_eq t.ticket_id j ≡ true = ground arith in
        let clash = subst (λ x. text_eq x j ≡ true) is_i marked_j in absurd (cc)
  ]

  -- The ticket leaves the list of those that wait.
  waiting-split :
      (before after : List Pending) (p : Pending) (v : Server)
      → v.waiting ≡ before ++ p ∷ after
      → count_by (has_jti j) v.waiting
        ≡ (if text_eq p.jti j then 1 else 0) + count_by (has_jti j) (before ++ after)
  unfolding count_by
  waiting-split before after p v h =
      ap (count_by (has_jti j)) h
      ∙ omega (
        arith,
        count_by-append (has_jti j) before (p ∷ after),
        count_by-append (has_jti j) before after,
      )

  finished-Once :
      (db : Tables) (before : List Pending) (p : Pending) (after : List Pending) (v : Server)
      → v.waiting ≡ before ++ p ∷ after
      → Once j e v
      → Once j e (finished db before p after v)
  unfolding finish_consume count_by
  finished-Once db before p after v w h =
      let moved = waiting-split before after p v w in
      elim (Option-cases (ticket_user db p)) [
        | inr (u, k) ↦
            rw (k, finish_consume)
              (record {
                few = omega (arith, moved, h.few);
                kept = elim h.kept [ inl n ↦ inl (omega (arith, moved, n)) | inr n ↦ inr n ];
              })
        | inl k ↦
            rw (k, finish_consume)
              (elim (Bool-cases (text_eq p.jti j)) [
                | inl same ↦
                    let one = rw same at moved in
                    record {
                      few = omega (arith, one, h.few);
                      kept = inl (omega (arith, one, h.few));
                    }
                | inr other ↦
                    let nothing = rw other at moved in
                    record {
                      few = omega (arith, nothing, h.few);
                      kept = elim h.kept [
                        | inl n ↦ inl (omega (arith, nothing, n))
                        | inr (inl n) ↦ inr (
                            inl (
                              any_by-delete_by (has_ticket_id p.jti) (marks j e) v.store
                                (λ t m. apart p.jti t other m) n))
                        | inr (inr n) ↦ inr (inr n)
                      ];
                    }
              ])
      ]

  Step-Once : {v w : Server} → Step l v w → Once j e v → Once j e w
  Step-Once (begins ticket v) h = begun-Once ticket v h
  Step-Once (finishes db before p after v w) h = finished-Once db before p after v w h
  Step-Once (issues v) h = issued-Once v h
  Step-Once (waits later v t) h = record {
    few = h.few;
    kept = elim h.kept [
      | inl n ↦ inl n
      | inr (inl n) ↦ inr (inl n)
      | inr (inr n) ↦ inr (inr (omega arith))
    ];
  }

  Reach-Once : {v w : Server} → Reach l v w → Once j e v → Once j e w
  Reach-Once here h = h
  Reach-Once (step s r) h = Reach-Once r (Step-Once s h)

-- A server that was just started.
abbrev pub started : Time → Server
started now = record { store = []; waiting = []; admitted = []; now = now }

-- A ticket id opens at most one connection, however requests, answers of the database and the
-- clean-up of the map interleave, where no token is accepted once it has expired and all valid
-- tokens with the id expire at one time.
pub Reach-times_admitted :
    (l : Library) (unexpired : Unexpired l) (j : Text) (e : ℕ) (now : Time) (v : Server)
    → Dated l j e
    → Reach l (started now) v
    → times_admitted j v ≤ 1
Reach-times_admitted l unexpired j e now v dated r =
    let once =
      Reach-Once l unexpired j e dated r
        (unfold count_by in record { few = omega arith; kept = inl refl }) in
    omega (arith, once.few)
