-- ===== src/Wrongway/Accounting.antt =====
-- The numbers of a response, and what the tables and the lines of the response hold.
use lidar_dashboard.Prelude.{
  suc, ◌+◌, ◌≡◌, refl, sym, ap, ◌∙◌, inl, inr, Bool, true, false, not, Option, none, some, List, [],
  ◌∷◌, arith, if◌then◌else◌, length, length-append, Bool-cases, Option-cases,
}
use lidar_dashboard.Prelude.Tables.{find_by, count_by, any_by, length-update_by, length-upsert}
use lidar_dashboard.Wrongway.Model.{
  Key, Time, track_created, track_updated, event_stored, stale_object_skipped, Device, Track,
  Incident, TrafficEvent, Db, Entry, Snapshot, Result,
}
use lidar_dashboard.Wrongway.Validate.{is_some, Accepted, accept, rejected_result, split_objects}
use lidar_dashboard.Wrongway.Rows.{increment_daily_stat, one_if, create_traffic_event}
use lidar_dashboard.Wrongway.Process.{
  track_key, object_time, seen_again, first_seen, save_track, saved_id, count_first_sight,
  state_changed, take_incident, record_change, is_stale, needs_event, object_result, finish_object,
  process_seen, process_object, process_objects,
}
use lidar_dashboard.Wrongway.Receive.{
  resolve_incident_if_needed, is_missing, deactivated, snapshot_time, deactivate_missing_tracks,
  open_in_zone, item_is_wrong_way, transaction, item_results, has_action, has_track_action,
}
use lidar_dashboard.Wrongway.Tracks.{
  track_at, process_object-stale, process_object-fresh, tracks-process_seen, tracks-resolve,
}
use lidar_dashboard.Wrongway.Replay.{take-Same}
use lidar_dashboard.Wrongway.Repetition.{resolve-Same, deactivate-Same}

pub split_objects-some :
    (e : Entry) (es : List Entry) (a : Accepted)
    → accept e ≡ some a
    → split_objects (e ∷ es) ≡ (a ∷ (split_objects es).0, (split_objects es).1)
unfolding split_objects
split_objects-some e es a h = rw (h, split_objects) refl

pub split_objects-none :
    (e : Entry) (es : List Entry)
    → accept e ≡ none
    → split_objects (e ∷ es) ≡ ((split_objects es).0, rejected_result e ∷ (split_objects es).1)
unfolding split_objects
split_objects-none e es h = rw (h, split_objects) refl

-- What an object adds to the tables is what its line says.
record Told (r : Result) (db db' : Db) : Type 0 where
  pub one_way :
      one_if (has_track_action track_created r)
        + one_if (has_track_action track_updated r)
        + one_if (has_action stale_object_skipped r)
      ≡ 1
  pub tracks : length db'.tracks ≡ length db.tracks + one_if (has_track_action track_created r)
  pub events : length db'.events ≡ length db.events + one_if (has_action event_stored r)

events-seen :
    (s : Snapshot) (d : Device) (a : Accepted) (o : Option Track) (at : Time) (db : Db)
    → (count_first_sight s d a o (save_track d a at db)).events ≡ db.events
unfolding count_first_sight increment_daily_stat save_track
events-seen s d a o at db = ground arith

-- What the line of an object that is not stale says.
record Says (o : Option Track) (stored : Bool) (r : Result) : Type 0 where
  pub created : one_if (has_track_action track_created r) ≡ one_if (not (is_some o))
  pub updated : one_if (has_track_action track_updated r) ≡ one_if (is_some o)
  pub stale : one_if (has_action stale_object_skipped r) ≡ 0
  pub events : one_if (has_action event_stored r) ≡ one_if stored

line-Says :
    (a : Accepted) (o : Option Track) (i : Option Incident) (e : Option TrafficEvent)
    → Says o (is_some e) (object_result a o i e)
line-Says a none i none = record { created = refl; updated = refl; stale = refl; events = refl }
line-Says a none i (some e) = record { created = refl; updated = refl; stale = refl; events = refl }
line-Says a (some t) i (some e) = record {
  created = refl;
  updated = refl;
  stale = refl;
  events = refl;
}
line-Says a (some t) i none =
    elim (Bool-cases (state_changed a.entry.event.original_type (some t))) [
      | inl e ↦ record { created = refl; updated = refl; stale = rw e refl; events = rw e refl }
      | inr e ↦ record { created = refl; updated = refl; stale = rw e refl; events = rw e refl }
    ]

record_change-events :
    (s : Snapshot) (d : Device) (a : Accepted) (v : Key) (i : Option Incident) (db : Db)
    → length (record_change s d a v i db).1.events ≡ length db.events + 1
unfolding record_change create_traffic_event increment_daily_stat
record_change-events s d a v i db = length-append db.events _

finish-line :
    (s : Snapshot) (d : Device) (a : Accepted) (o : Option Track) (v : Key) (i : Option Incident)
    (db : Db)
    → Says o (needs_event a.entry.event.original_type o) (finish_object s d a o v i db).0.result
      × (length (finish_object s d a o v i db).1.events
          ≡ length db.events + one_if (needs_event a.entry.event.original_type o))
unfolding finish_object
finish-line s d a o v i db = elim (Bool-cases (needs_event a.entry.event.original_type o)) [
  | inl e ↦
      rw e
        (line-Says a o i (some (record_change s d a v i db).0), record_change-events s d a v i db)
  | inr e ↦ rw e (line-Says a o i none, omega arith)
]

one_of {ℓ} : {A : Type ℓ} (o : Option A) → one_if (not (is_some o)) + one_if (is_some o) ≡ 1
one_of none = refl
one_of (some a) = refl

module _ (s : Snapshot) (d : Device) where
  seen-line :
      (a : Accepted) (o : Option Track) (i : Option Incident) (db : Db)
      → Says o (needs_event a.entry.event.original_type o) (process_seen s d a o i db).0.result
        × (length (process_seen s d a o i db).1.events
            ≡ length db.events + one_if (needs_event a.entry.event.original_type o))
  unfolding process_seen
  seen-line a o i db =
      let at = object_time s a in
      let counted = count_first_sight s d a o (save_track d a at db) in
      let taken = take_incident d a.entry.event.original_type i counted in
      let line = finish-line s d a o (saved_id o db) taken.0 taken.1 in
      (
        line.0,
        line.1
            ∙ ap
                (λ (events : List TrafficEvent).
                  length events + one_if (needs_event a.entry.event.original_type o))
                ((take-Same d a.entry.event.original_type i counted).events
                  ∙ events-seen s d a o at db),
      )

  save-tracks :
      (a : Accepted) (at : Time) (db : Db)
      → length (save_track d a at db).tracks
        ≡ length db.tracks + one_if (not (is_some (track_at d.id a.track_id db)))
  unfolding save_track
  save-tracks a at db =
      length-upsert (track_key d.id a.track_id) (seen_again d a at) (first_seen d a at db.next_id)
        db.tracks
      ∙ elim (Option-cases (track_at d.id a.track_id db)) [
        | inl e ↦ rw e refl
        | inr (t, e) ↦ rw e refl
      ]

  process_object-Told :
      (a : Accepted) (i : Option Incident) (db : Db)
      → Told (process_object s d a i db).0.result db (process_object s d a i db).1
  process_object-Told a i db =
      let o = track_at d.id a.track_id db in
      elim (Bool-cases (is_stale o (object_time s a))) [
        | inl e ↦
            rw (process_object-stale s d a i db e)
              (record { one_way = refl; tracks = omega arith; events = omega arith })
        | inr e ↦
            let (says, events) = seen-line a o i db in
            rw (process_object-fresh s d a i db e) (record {
              one_way = omega (arith, says.created, says.updated, says.stale, one_of o);
              tracks =
                  ap length (tracks-process_seen s d a o i db)
                  ∙ save-tracks a (object_time s a) db
                  ∙ ap (λ n. length db.tracks + n) (sym says.created);
              events = omega (arith, events, says.events);
            })
      ]

one_if-count : (b : Bool) → (if b then 1 else 0) ≡ one_if b
one_if-count true = refl
one_if-count false = refl

tracks-deactivate :
    (s : Snapshot) (d : Device) (as' : List Accepted) (db : Db)
    → length (deactivate_missing_tracks s d as' db).1.tracks ≡ length db.tracks
unfolding deactivate_missing_tracks
tracks-deactivate s d as' db =
    length-update_by (is_missing d (snapshot_time s) as') (deactivated (snapshot_time s)) db.tracks

-- The same of a run of objects, over their lines.
pub record Counted (rs : List Result) (db db' : Db) : Type 0 where
  pub one_way :
      count_by (has_track_action track_created) rs
        + count_by (has_track_action track_updated) rs
        + count_by (has_action stale_object_skipped) rs
      ≡ length rs
  pub tracks : length db'.tracks ≡ length db.tracks + count_by (has_track_action track_created) rs
  pub events : length db'.events ≡ length db.events + count_by (has_action event_stored) rs

Counted-cons :
    (r : Result) (rs : List Result) (a b c : Db)
    → Told r a b
    → Counted rs b c
    → Counted (r ∷ rs) a c
unfolding count_by
Counted-cons r rs a b c h k = omega (
  arith,
  h,
  k,
  one_if-count (has_track_action track_created r),
  one_if-count (has_track_action track_updated r),
  one_if-count (has_action stale_object_skipped r),
  one_if-count (has_action event_stored r),
)

module _ (s : Snapshot) (d : Device) where
  process_objects-Counted :
      (as' : List Accepted) (i : Option Incident) (db : Db)
      → Counted (item_results (process_objects s d as' i db).0) db (process_objects s d as' i db).2
        × (length (process_objects s d as' i db).0 ≡ length as')
  unfolding process_objects count_by
  process_objects-Counted [] i db =
      (record { one_way = refl; tracks = omega arith; events = omega arith }, refl)
  process_objects-Counted (a ∷ as') i db =
      let (item, db') = process_object s d a i db in
      let (later, size) = process_objects-Counted as' item.incident db' in
      (
        Counted-cons item.result (item_results (process_objects s d as' item.incident db').0) db db'
            _ (process_object-Told s d a i db) later,
        ap suc size,
      )

  pub transaction-Counted :
      (as' : List Accepted) (db : Db)
      → Counted (item_results (transaction s d as' db).0) db (transaction s d as' db).2
        × (length (transaction s d as' db).0 ≡ length as')
  unfolding transaction
  transaction-Counted as' db =
      let o = find_by (open_in_zone d.zone_id) db.incidents in
      let loop = process_objects s d as' o db in
      let w = any_by item_is_wrong_way loop.0 in
      let resolved_db = resolve_incident_if_needed s loop.1 w loop.2 in
      let (counted, size) = process_objects-Counted as' o db in
      (
        record {
          one_way = counted.one_way;
          tracks =
              tracks-deactivate s d as' resolved_db
              ∙ ap length (tracks-resolve s loop.1 w loop.2)
              ∙ counted.tracks;
          events =
              ap length (
                (deactivate-Same s d as' resolved_db).events
                ∙ (resolve-Same s d loop.1 w loop.2).events)
              ∙ counted.events;
        },
        size,
      )
