-- ===== src/Wrongway/SnapshotLog.antt =====
-- The log of the events against their statuses, when snapshots are received.
use lidar_dashboard.Prelude.{
  ◌≤◌, ◌<◌, ◌≡◌, refl, sym, ap, ◌∙◌, inl, inr, Bool, not, ◌&&◌, Option, none, some, List, [], ◌∷◌,
  arith, ◌==◌, if◌then◌else◌, Bool-cases, Option-cases,
}
use lidar_dashboard.Prelude.Tables.{find_by, any_by, All}
use lidar_dashboard.Wrongway.Model.{
  Key, Time, EventType, wrong_way, EventStatus, new, Device, Track, Incident, received, EventLog,
  Db, Snapshot,
}
use lidar_dashboard.Wrongway.Validate.{
  is_some, is_vehicle, validate_snapshot, Accepted, split_objects, nothing_accepted,
  find_source_device,
}
use lidar_dashboard.Wrongway.Rows.{
  increment_daily_stat, is_active_status, ensure_active_incident, create_traffic_event,
}
use lidar_dashboard.Wrongway.Process.{
  object_time, save_track, saved_id, count_first_sight, take_incident, record_change, is_stale,
  needs_event, finish_object, process_seen, process_object, process_objects,
}
use lidar_dashboard.Wrongway.Receive.{
  resolve_incident_if_needed, deactivate_missing_tracks, open_in_zone, item_is_wrong_way,
  transaction, touch_device, process_from, lidar_pc, process_snapshot,
}
use lidar_dashboard.Wrongway.Model.{manual}
use lidar_dashboard.Wrongway.Tracks.{track_at, process_object-stale, process_object-fresh}
use lidar_dashboard.Wrongway.Replay.{take-Same}
use lidar_dashboard.Wrongway.Repetition.{resolve-Same, deactivate-Same}
use lidar_dashboard.Wrongway.AuditTrail.{
  Logged, after_line, status_after, status_after-append, All-append, All-map,
}
use lidar_dashboard.Wrongway.Receipts.{receipts-new, receipts-old}

-- A step that stores no event and no line, and takes back no row id.
record Quiet (db db' : Db) : Type 0 where
  pub events : db'.events ≡ db.events
  pub logs : db'.logs ≡ db.logs
  pub ids : db.next_id ≤ db'.next_id

Quiet-Logged : (db db' : Db) → Quiet db db' → Logged db → Logged db'
Quiet-Logged db db' q h = record {
  received_once = rw (q.events, q.logs) h.received_once;
  told = rw (q.events, q.logs) h.told;
  events_known = rw q.events (All-map _ _ db.events (λ e p. omega (arith, q.ids)) h.events_known);
  lines_known = rw q.logs (All-map _ _ db.logs (λ l p. omega (arith, q.ids)) h.lines_known);
}

-- An event that no line is about.
line-unknown :
    (id : Key) (status : EventStatus) (l : EventLog)
    → l.event_id < id
    → after_line id status l ≡ status
line-unknown id status l h =
    elim l.metadata
      as (λ m.
        (elim m as (λ x. EventStatus) [
          | received d z t ↦ status
          | manual previous next ↦ if l.event_id == id then next else status
        ])
        ≡ status) [ received d z t ↦ refl | manual previous next ↦ ground arith ]

status-unknown :
    (id : Key) (status : EventStatus) (ls : List EventLog)
    → All (λ l. l.event_id < id) ls
    → status_after id status ls ≡ status
status-unknown id status [] h = refl
status-unknown id status (l ∷ ls) h =
    ap (λ t. status_after id t ls) (line-unknown id status l h.0) ∙ status-unknown id status ls h.1

-- A property of all rows that follows from two others.
All-both {κ μ ν} :
    {A : Type 0} (P : A → Type κ) (Q : A → Type μ) (R : A → Type ν) (xs : List A)
    → ((x : A) → P x → Q x → R x)
    → All P xs
    → All Q xs
    → All R xs
All-both P Q R [] f h k = tt
All-both P Q R (x ∷ xs) f h k = (f x h.0 k.0, All-both P Q R xs f h.1 k.1)

created-Logged :
    (a : Accepted) (d : Device) (v : Key) (i : Option Incident) (db : Db)
    → Logged db
    → Logged (create_traffic_event a d v i db).1
unfolding create_traffic_event
created-Logged a d v i db h = record {
  received_once =
      All-append _ db.events _
        (All-both _ _ _ db.events (λ e p q. receipts-old a d db.next_id db.logs e p q)
          h.events_known h.received_once)
        (receipts-new a d v i db.next_id db.logs h.lines_known);
  told =
      All-append _ db.events _
        (All-map _ _ db.events (λ e p. p ∙ sym (status_after-append e.id new db.logs _)) h.told)
        (sym (
          status_after-append db.next_id new db.logs _
          ∙ status-unknown db.next_id new db.logs h.lines_known));
  events_known =
      All-append _ db.events _ (All-map _ _ db.events (λ e p. omega arith) h.events_known)
        (omega arith);
  lines_known =
      All-append _ db.logs _ (All-map _ _ db.logs (λ l p. omega arith) h.lines_known) (omega arith);
}

ensure-ids :
    (d : Device) (o : Option Incident) (db : Db)
    → db.next_id ≤ (ensure_active_incident d o db).1.next_id
unfolding ensure_active_incident
ensure-ids d none db = omega arith
ensure-ids d (some i) db = elim (Bool-cases (is_active_status i.status)) [
  | inl e ↦ rw e (omega arith)
  | inr e ↦ rw e (omega arith)
]

take-ids :
    (d : Device) (t : EventType) (o : Option Incident) (db : Db)
    → db.next_id ≤ (take_incident d t o db).1.next_id
unfolding take_incident
take-ids d wrong_way o db = ensure-ids d o db
take-ids d _ o db = omega arith

take-Quiet :
    (d : Device) (t : EventType) (o : Option Incident) (db : Db)
    → Quiet db (take_incident d t o db).1
take-Quiet d t o db =
    let same = take-Same d t o db in
    record { events = same.events; logs = same.logs; ids = take-ids d t o db }

seen-Quiet :
    (s : Snapshot) (d : Device) (a : Accepted) (o : Option Track) (at : Time) (db : Db)
    → Quiet db (count_first_sight s d a o (save_track d a at db))
unfolding count_first_sight increment_daily_stat save_track
seen-Quiet s d a o at db =
    elim (Bool-cases (not (is_some o) && is_vehicle a.entry.event.object_class)) [
      | inl e ↦ rw e (record { events = refl; logs = refl; ids = omega arith })
      | inr e ↦ rw e (record { events = refl; logs = refl; ids = omega arith })
    ]

module _ (s : Snapshot) (d : Device) where
  record-Logged :
      (a : Accepted) (v : Key) (i : Option Incident) (db : Db)
      → Logged db
      → Logged (record_change s d a v i db).1
  unfolding record_change increment_daily_stat
  record-Logged a v i db h =
      Quiet-Logged (create_traffic_event a d v i db).1 _
        (record { events = refl; logs = refl; ids = omega arith }) (created-Logged a d v i db h)

  finish-Logged :
      (a : Accepted) (o : Option Track) (v : Key) (i : Option Incident) (db : Db)
      → Logged db
      → Logged (finish_object s d a o v i db).1
  unfolding finish_object
  finish-Logged a o v i db h = elim (Bool-cases (needs_event a.entry.event.original_type o)) [
    | inl e ↦ rw e (record-Logged a v i db h)
    | inr e ↦ rw e h
  ]

  process_seen-Logged :
      (a : Accepted) (t : Option Track) (o : Option Incident) (db : Db)
      → Logged db
      → Logged (process_seen s d a t o db).1
  unfolding process_seen
  process_seen-Logged a t o db h =
      let counted = count_first_sight s d a t (save_track d a (object_time s a) db) in
      let (o', taken) = take_incident d a.entry.event.original_type o counted in
      finish-Logged a t (saved_id t db) o' taken (
        Quiet-Logged counted taken (take-Quiet d a.entry.event.original_type o counted)
          (Quiet-Logged db counted (seen-Quiet s d a t (object_time s a) db) h))

  process_object-Logged :
      (a : Accepted) (o : Option Incident) (db : Db)
      → Logged db
      → Logged (process_object s d a o db).1
  process_object-Logged a o db h =
      elim (Bool-cases (is_stale (track_at d.id a.track_id db) (object_time s a))) [
        | inl e ↦ rw (process_object-stale s d a o db e) h
        | inr e ↦
            rw (process_object-fresh s d a o db e)
              (process_seen-Logged a (track_at d.id a.track_id db) o db h)
      ]

  process_objects-Logged :
      (as' : List Accepted) (o : Option Incident) (db : Db)
      → Logged db
      → Logged (process_objects s d as' o db).2
  unfolding process_objects
  process_objects-Logged [] o db h = h
  process_objects-Logged (a ∷ as') o db h =
      let (item, db') = process_object s d a o db in
      process_objects-Logged as' item.incident db' (process_object-Logged a o db h)

  resolve-ids :
      (o : Option Incident) (w : Bool) (db : Db)
      → (resolve_incident_if_needed s o w db).next_id ≡ db.next_id
  unfolding resolve_incident_if_needed
  resolve-ids none w db = refl
  resolve-ids (some i) w db = ground arith

  deactivate-ids :
      (as' : List Accepted) (db : Db)
      → (deactivate_missing_tracks s d as' db).1.next_id ≡ db.next_id
  unfolding deactivate_missing_tracks
  deactivate-ids as' db = refl

  transaction-Logged :
      (as' : List Accepted) (db : Db) → Logged db → Logged (transaction s d as' db).2
  unfolding transaction
  transaction-Logged as' db h =
      let o = find_by (open_in_zone d.zone_id) db.incidents in
      let loop = process_objects s d as' o db in
      let w = any_by item_is_wrong_way loop.0 in
      let resolved_db = resolve_incident_if_needed s loop.1 w loop.2 in
      let kept = resolve-Same s d loop.1 w loop.2 in
      let left = deactivate-Same s d as' resolved_db in
      Quiet-Logged resolved_db _
        (record {
          events = left.events;
          logs = left.logs;
          ids = omega (arith, deactivate-ids as' resolved_db);
        })
        (Quiet-Logged loop.2 resolved_db
          (record {
            events = kept.events;
            logs = kept.logs;
            ids = omega (arith, resolve-ids loop.1 w loop.2);
          })
          (process_objects-Logged as' o db h))

-- Receiving a snapshot keeps the log complete: every event, the new ones included, has one line of
-- its receipt, with its track, and its status is the one that the log tells.
pub process_snapshot-Logged :
    (db : Db) (s : Snapshot) → Logged db → Logged (process_snapshot db s).0
unfolding process_snapshot process_from touch_device
process_snapshot-Logged db s h = elim (Option-cases (validate_snapshot s)) [
  | inr (e, j) ↦ rw (j, process_snapshot) h
  | inl j ↦ elim (Option-cases (lidar_pc (find_source_device s.source_device_code db))) [
    | inl k ↦ rw (j, k, process_snapshot) h
    | inr (d, k) ↦ rw (j, k, process_snapshot) (from d)
  ]
]
  where
    from : (d : Device) → Logged (process_from s d (touch_device s d db)).0
    from d =
        let touched_db = touch_device s d db in
        let same : Logged touched_db = record {
          received_once = h.received_once;
          told = h.told;
          events_known = h.events_known;
          lines_known = h.lines_known;
        } in
        elim (Bool-cases (nothing_accepted s)) [
          | inl e ↦ rw e same
          | inr e ↦ rw e (transaction-Logged s d (split_objects s.objects).0 touched_db same)
        ]
