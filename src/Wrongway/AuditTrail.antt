-- ===== src/Wrongway/AuditTrail.antt =====
-- The log of the events against their statuses.
use lidar_dashboard.Prelude.{
  ℕ, ◌<◌, ◌≡◌, refl, sym, ap, ◌∙◌, inl, inr, Bool, true, false, not, ◌&&◌, Option, some, List, [],
  ◌∷◌, ◌++◌, arith, ◌==◌, if◌then◌else◌, Bool-cases, Option-cases,
}
use lidar_dashboard.Prelude.Text.{Text}
use lidar_dashboard.Prelude.Tables.{find_by, update_by, All, All-find_by, count_by, count_by-append}
use lidar_dashboard.Wrongway.Model.{
  Key, EventStatus, new, TrafficEvent, received, manual, EventLog, LogAction, Db,
}
use lidar_dashboard.Wrongway.EventStatus.{
  read_status, normalized_memo, memo_saved, same_status, same_event, with_status, change_status,
  update_event_status,
}

-- The status that a line of the log leaves an event with.
abbrev pub after_line : Key → EventStatus → EventLog → EventStatus
after_line event status l = elim l.metadata [
  | received d z t ↦ status
  | manual previous next ↦ if l.event_id == event then next else status
]

abbrev pub status_after : Key → EventStatus → List EventLog → EventStatus
status_after event status [] = status
status_after event status (l ∷ ls) = status_after event (after_line event status l) ls

-- The line that an event was received with.
abbrev pub is_receipt : TrafficEvent → EventLog → Bool
is_receipt e l = elim l.metadata [
  | received d z t ↦ l.event_id == e.id && t == e.track_id
  | manual previous next ↦ false
]

abbrev pub receipts : List EventLog → TrafficEvent → ℕ
receipts ls e = count_by (is_receipt e) ls

-- Every event has the status that the log tells, from `new` on, and one line of its receipt, with
-- its track. Events and lines of the log have row ids that were given out.
pub record Logged (db : Db) : Type 0 where
  pub received_once : All (λ e. receipts db.logs e ≡ 1) db.events
  pub told : All (λ e. e.status ≡ status_after e.id new db.logs) db.events
  pub events_known : All (λ e. e.id < db.next_id) db.events
  pub lines_known : All (λ l. l.event_id < db.next_id) db.logs

pub status_after-append :
    (event : Key) (status : EventStatus) (ls : List EventLog) (l : EventLog)
    → status_after event status (ls ++ l ∷ []) ≡ after_line event (status_after event status ls) l
status_after-append event status [] l = refl
status_after-append event status (x ∷ ls) l =
    status_after-append event (after_line event status x) ls l

pub All-append {κ} :
    {A : Type 0} (P : A → Type κ) (xs : List A) (x : A) → All P xs → P x → All P (xs ++ x ∷ [])
All-append P [] x h k = (k, tt)
All-append P (y ∷ xs) x h k = (h.0, All-append P xs x h.1 k)

pub All-map {κ} :
    {A : Type 0} (P Q : A → Type κ) (xs : List A) → ((x : A) → P x → Q x) → All P xs → All Q xs
All-map P Q [] f h = tt
All-map P Q (x ∷ xs) f h = (f x h.0, All-map P Q xs f h.1)

All-update_by {κ} :
    {A : Type 0} (P Q : A → Type κ) (p : A → Bool) (g : A → A) (xs : List A)
    → ((x : A) → P x → p x ≡ true → Q (g x))
    → ((x : A) → P x → p x ≡ false → Q x)
    → All P xs
    → All Q (update_by p g xs)
unfolding update_by
All-update_by P Q p g [] f k h = tt
All-update_by P Q p g (x ∷ xs) f k h = elim (Bool-cases (p x)) [
  | inl e ↦ rw e (f x h.0 e, All-update_by P Q p g xs f k h.1)
  | inr e ↦ rw e (k x h.0 e, All-update_by P Q p g xs f k h.1)
]

same_status→≡ : (a b : EventStatus) → same_status a b ≡ true → a ≡ b
same_status→≡ a b h = ground arith

-- A line about an event leaves it with the line's status, and the other events as they were.
abbrev line : Key → Key → LogAction → Option Text → EventStatus → EventStatus → EventLog
line event user action message previous next = record {
  event_id = event;
  user_id = some user;
  action = action;
  message = message;
  metadata = manual previous next;
}

told-line :
    (event user : Key) (action : LogAction) (message : Option Text) (previous next : EventStatus)
    (e : TrafficEvent) (ls : List EventLog)
    → status_after e.id new (ls ++ line event user action message previous next ∷ [])
      ≡ (if event == e.id then next else status_after e.id new ls)
told-line event user action message previous next e ls =
    status_after-append e.id new ls (line event user action message previous next)

-- An event under the line, one that is not, and all events where the line names the status they have.
module _ (db : Db) (user : Key) (action : LogAction) (message : Option Text) (x : TrafficEvent)
    (next : EventStatus) where
  abbrev ToldBy : List EventLog → TrafficEvent → Type 0
  ToldBy ls e = e.status ≡ status_after e.id new ls

  abbrev new_logs : List EventLog
  new_logs = db.logs ++ line x.id user action message x.status next ∷ []

  told-changed :
      (e : TrafficEvent)
      → ToldBy db.logs e
      → same_event x.id e ≡ true
      → ToldBy new_logs (with_status next e)
  told-changed e p m =
      let same : (x.id == e.id) ≡ true = ground arith in
      sym (told-line x.id user action message x.status next e db.logs ∙ rw same refl)

  told-other : (e : TrafficEvent) → ToldBy db.logs e → same_event x.id e ≡ false → ToldBy new_logs e
  told-other e p m =
      let apart : (x.id == e.id) ≡ false = ground arith in
      p ∙ sym (told-line x.id user action message x.status next e db.logs ∙ rw apart refl)

  told-same :
      x.status ≡ status_after x.id new db.logs
      → x.status ≡ next
      → (e : TrafficEvent) → ToldBy db.logs e
      → ToldBy new_logs e
  told-same told same e p = elim (Bool-cases (same_event x.id e)) [
    | inr m ↦ told-other e p m
    | inl m ↦
        let here : e.id ≡ x.id = ground arith in
        p ∙ ap (λ i. status_after i new db.logs) here ∙ sym told ∙ same ∙ told-changed e p m
  ]

-- A line about a status is no receipt.
receipts-line :
    (event user : Key) (action : LogAction) (message : Option Text) (previous next : EventStatus)
    (ls : List EventLog) (e : TrafficEvent)
    → receipts ls e ≡ 1
    → receipts (ls ++ line event user action message previous next ∷ []) e ≡ 1
unfolding count_by
receipts-line event user action message previous next ls e h = omega (
  arith,
  h,
  count_by-append (is_receipt e) ls (line event user action message previous next ∷ []),
)

change_status-Logged :
    (db : Db) (user : Key) (x : TrafficEvent) (next : EventStatus) (memo : Text)
    → x.status ≡ status_after x.id new db.logs
    → x.id < db.next_id
    → Logged db
    → Logged (change_status db user x next memo).0
unfolding change_status
change_status-Logged db user x next memo told known h =
    elim (Bool-cases (not (not (same_status x.status next)) && not (memo_saved memo))) [
      | inl e ↦ rw e h
      | inr e ↦ rw e (elim (Bool-cases (not (same_status x.status next))) [
        | inl k ↦ rw k (record {
          received_once =
              All-update_by _ _ (same_event x.id) (with_status next) db.events
                (λ e' p m. receipts-line x.id user _ _ x.status next db.logs e' p)
                (λ e' p m. receipts-line x.id user _ _ x.status next db.logs e' p) h.received_once;
          told =
              All-update_by _ _ (same_event x.id) (with_status next) db.events
                (told-changed db user _ _ x next) (told-other db user _ _ x next) h.told;
          events_known =
              All-update_by _ _ (same_event x.id) (with_status next) db.events (λ e' p m. p)
                (λ e' p m. p) h.events_known;
          lines_known = All-append (λ l. l.event_id < db.next_id) db.logs _ h.lines_known known;
        })
        | inr k ↦ rw k (record {
          received_once =
              All-map _ _ db.events (receipts-line x.id user _ _ x.status next db.logs)
                h.received_once;
          told =
              All-map _ _ db.events
                (told-same db user _ _ x next told (same_status→≡ x.status next (ground arith)))
                h.told;
          events_known = h.events_known;
          lines_known = All-append (λ l. l.event_id < db.next_id) db.logs _ h.lines_known known;
        })
      ])
    ]

-- What an operator does with an event keeps the log complete, refused requests included: the status
-- of every event is the one that the log tells, and every event has one line of its receipt.
pub update_event_status-Logged :
    (db : Db) (event user : Key) (status : Text) (memo : Option Text)
    → Logged db
    → Logged (update_event_status db event user status memo).0
unfolding update_event_status
update_event_status-Logged db event user status memo h = elim (Option-cases (read_status status)) [
  | inl e ↦ rw (e, update_event_status) h
  | inr (next, e) ↦ elim (Option-cases (find_by (same_event event) db.events)) [
    | inl k ↦ rw (e, k, update_event_status) h
    | inr (x, k) ↦
        rw (e, k, update_event_status)
          (change_status-Logged db user x next (normalized_memo memo)
            (All-find_by _ (same_event event) db.events x h.told k)
            (All-find_by _ (same_event event) db.events x h.events_known k) h)
  ]
]
