-- ===== src/Wrongway/Statistics.antt =====
-- The daily statistics agree with the stored events.
use lidar_dashboard.Prelude.{
  ℕ, ◌+◌, ◌≡◌, refl, ap, ◌∙◌, inl, inr, not, ◌&&◌, Option, List, [], ◌∷◌, arith, Bool-cases,
  Option-cases,
}
use lidar_dashboard.Prelude.Tables.{
  find_by, count_by, any_by, sum_by, sum_by-upsert, count_by-append,
}
use lidar_dashboard.Wrongway.Model.{
  Key, Time, EventType, wrong_way, pedestrian_entered, pedestrian_exited, same_type, Device, Track,
  Incident, Db, Snapshot,
}
use lidar_dashboard.Wrongway.Validate.{
  is_some, is_vehicle, validate_snapshot, Accepted, split_objects, nothing_accepted,
  find_source_device,
}
use lidar_dashboard.Wrongway.Rows.{
  Increments, increment_daily_stat, add_stat, is_wrong_way, one_if, create_traffic_event,
  traffic_event,
}
use lidar_dashboard.Wrongway.Process.{
  object_time, save_track, saved_id, count_first_sight, take_incident, record_change, is_stale,
  is_entered, is_exited, needs_event, finish_object, process_seen, process_object, process_objects,
}
use lidar_dashboard.Wrongway.Receive.{
  resolve_incident_if_needed, open_in_zone, item_is_wrong_way, transaction, touch_device,
  process_from, lidar_pc, process_snapshot,
}
use lidar_dashboard.Wrongway.Tracks.{track_at, process_object-stale, process_object-fresh}
use lidar_dashboard.Wrongway.Replay.{Same, take-Same}
use lidar_dashboard.Wrongway.Repetition.{resolve-Same, deactivate-Same}

-- How many events of a type are stored.
abbrev pub stored : EventType → Db → ℕ
stored type db = count_by (λ e. same_type e.event_type type) db.events

-- The columns of the statistics that count stored events, summed over all days and devices.
abbrev pub wrong_way_total : Db → ℕ
wrong_way_total db = sum_by (λ s. s.wrong_way_count) db.stats

abbrev pub entered_total : Db → ℕ
entered_total db = sum_by (λ s. s.pedestrian_entered_count) db.stats

abbrev pub exited_total : Db → ℕ
exited_total db = sum_by (λ s. s.pedestrian_exited_count) db.stats

-- Each total grows by as much as the number of stored events of its type.
pub record Balanced (db db' : Db) : Type 0 where
  pub wrong_ways :
      wrong_way_total db' + stored wrong_way db ≡ wrong_way_total db + stored wrong_way db'
  pub entered :
      entered_total db' + stored pedestrian_entered db
      ≡ entered_total db + stored pedestrian_entered db'
  pub exited :
      exited_total db' + stored pedestrian_exited db
      ≡ exited_total db + stored pedestrian_exited db'

Balanced-refl : (db : Db) → Balanced db db
Balanced-refl db = omega arith

Balanced-trans : (a b c : Db) → Balanced a b → Balanced b c → Balanced a c
Balanced-trans a b c h k = omega arith

Balanced-same : (db db' : Db) → db'.stats ≡ db.stats → db'.events ≡ db.events → Balanced db db'
Balanced-same db db' s e = record {
  wrong_ways = rw (s, e);
  entered = rw (s, e);
  exited = rw (s, e);
}

-- What an increment adds to each column.
increment_wrong :
    (s : Snapshot) (d : Device) (i : Increments) (db : Db)
    → wrong_way_total (increment_daily_stat s d i db) ≡ wrong_way_total db + i.wrong_way_count
unfolding increment_daily_stat
increment_wrong s d i db =
    sum_by-upsert (λ x. x.wrong_way_count) i.wrong_way_count _ (add_stat i) _ db.stats (λ x. refl)
      refl

increment_entered :
    (s : Snapshot) (d : Device) (i : Increments) (db : Db)
    → entered_total (increment_daily_stat s d i db) ≡ entered_total db + i.pedestrian_entered_count
unfolding increment_daily_stat
increment_entered s d i db =
    sum_by-upsert (λ x. x.pedestrian_entered_count) i.pedestrian_entered_count _ (add_stat i) _
      db.stats (λ x. refl) refl

increment_exited :
    (s : Snapshot) (d : Device) (i : Increments) (db : Db)
    → exited_total (increment_daily_stat s d i db) ≡ exited_total db + i.pedestrian_exited_count
unfolding increment_daily_stat
increment_exited s d i db =
    sum_by-upsert (λ x. x.pedestrian_exited_count) i.pedestrian_exited_count _ (add_stat i) _
      db.stats (λ x. refl) refl

events-increment :
    (s : Snapshot) (d : Device) (i : Increments) (db : Db)
    → (increment_daily_stat s d i db).events ≡ db.events
unfolding increment_daily_stat
events-increment s d i db = refl

Balanced-of_Same : (db db' : Db) → Same db db' → Balanced db db'
Balanced-of_Same db db' h = Balanced-same db db' h.stats h.events

stored_created :
    (a : Accepted) (d : Device) (v : Key) (i : Option Incident) (db : Db) (type : EventType)
    → stored type (create_traffic_event a d v i db).1
      ≡ stored type db + one_if (same_type a.entry.event.original_type type)
unfolding create_traffic_event
stored_created a d v i db type =
    count_by-append (λ e. same_type e.event_type type) db.events
      (traffic_event a d v i db.next_id ∷ [])
    ∙ ap (λ n. stored type db + n) (unfold count_by in ground arith)

created_stats :
    (a : Accepted) (d : Device) (v : Key) (i : Option Incident) (db : Db)
    → (wrong_way_total (create_traffic_event a d v i db).1 ≡ wrong_way_total db)
      × (entered_total (create_traffic_event a d v i db).1 ≡ entered_total db)
      × (exited_total (create_traffic_event a d v i db).1 ≡ exited_total db)
unfolding create_traffic_event
created_stats a d v i db = (refl, refl, refl)

columns :
    (t : EventType)
    → (one_if (is_wrong_way t) ≡ one_if (same_type t wrong_way))
      × (one_if (is_entered t) ≡ one_if (same_type t pedestrian_entered))
      × (one_if (is_exited t) ≡ one_if (same_type t pedestrian_exited))
columns wrong_way = (refl, refl, refl)
columns _ = (refl, refl, refl)

module _ (s : Snapshot) (d : Device) where
  -- An increment of the vehicle columns alone.
  increment-Balanced :
      (i : Increments) (db : Db)
      → i.wrong_way_count ≡ 0
      → i.pedestrian_entered_count ≡ 0
      → i.pedestrian_exited_count ≡ 0
      → Balanced db (increment_daily_stat s d i db)
  increment-Balanced i db p q r =
      let e = events-increment s d i db in
      record {
        wrong_ways = rw e (omega (arith, increment_wrong s d i db));
        entered = rw e (omega (arith, increment_entered s d i db));
        exited = rw e (omega (arith, increment_exited s d i db));
      }

  seen-Balanced :
      (a : Accepted) (o : Option Track) (at : Time) (db : Db)
      → Balanced db (count_first_sight s d a o (save_track d a at db))
  unfolding count_first_sight
  seen-Balanced a o at db =
      elim (Bool-cases (not (is_some o) && is_vehicle a.entry.event.object_class)) [
        | inl e ↦ rw e (
            Balanced-trans db (save_track d a at db) _
              (unfold save_track in Balanced-same db (save_track d a at db) refl refl)
              (increment-Balanced _ (save_track d a at db) refl refl refl))
        | inr e ↦ rw e (unfold save_track in Balanced-same db (save_track d a at db) refl refl)
      ]

  -- An event that is stored is counted once, in the column of its type.
  record-Balanced :
      (a : Accepted) (v : Key) (i : Option Incident) (db : Db)
      → Balanced db (record_change s d a v i db).1
  unfolding record_change
  record-Balanced a v i db =
      let type = a.entry.event.original_type in
      let (e, added) = create_traffic_event a d v i db in
      let inc : Increments = record {
        total_vehicle_count = 0;
        normal_vehicle_count = 0;
        wrong_way_count = one_if (is_wrong_way type);
        pedestrian_entered_count = one_if (is_entered type);
        pedestrian_exited_count = one_if (is_exited type);
      } in
      let same = created_stats a d v i db in
      let col = columns type in
      record {
        wrong_ways = rw (events-increment s d inc added) (
            omega (
              arith,
              increment_wrong s d inc added,
              stored_created a d v i db wrong_way,
              same,
              col,
            ));
        entered = rw (events-increment s d inc added) (
            omega (
              arith,
              increment_entered s d inc added,
              stored_created a d v i db pedestrian_entered,
              same,
              col,
            ));
        exited = rw (events-increment s d inc added) (
            omega (
              arith,
              increment_exited s d inc added,
              stored_created a d v i db pedestrian_exited,
              same,
              col,
            ));
      }

  take-Balanced :
      (t : EventType) (o : Option Incident) (db : Db) → Balanced db (take_incident d t o db).1
  take-Balanced t o db = Balanced-of_Same db (take_incident d t o db).1 (take-Same d t o db)

  finish-Balanced :
      (a : Accepted) (o : Option Track) (v : Key) (i : Option Incident) (db : Db)
      → Balanced db (finish_object s d a o v i db).1
  unfolding finish_object
  finish-Balanced a o v i db = elim (Bool-cases (needs_event a.entry.event.original_type o)) [
    | inl e ↦ rw e (record-Balanced a v i db)
    | inr e ↦ rw e (Balanced-refl db)
  ]

  process_seen-Balanced :
      (a : Accepted) (t : Option Track) (o : Option Incident) (db : Db)
      → Balanced db (process_seen s d a t o db).1
  unfolding process_seen
  process_seen-Balanced a t o db =
      let counted = count_first_sight s d a t (save_track d a (object_time s a) db) in
      let (o', taken) = take_incident d a.entry.event.original_type o counted in
      Balanced-trans db counted _ (seen-Balanced a t (object_time s a) db) (
        Balanced-trans counted taken _ (take-Balanced a.entry.event.original_type o counted)
          (finish-Balanced a t (saved_id t db) o' taken))

  process_object-Balanced :
      (a : Accepted) (o : Option Incident) (db : Db) → Balanced db (process_object s d a o db).1
  process_object-Balanced a o db =
      elim (Bool-cases (is_stale (track_at d.id a.track_id db) (object_time s a))) [
        | inl e ↦ rw (process_object-stale s d a o db e) (Balanced-refl db)
        | inr e ↦
            rw (process_object-fresh s d a o db e)
              (process_seen-Balanced a (track_at d.id a.track_id db) o db)
      ]

  process_objects-Balanced :
      (as' : List Accepted) (o : Option Incident) (db : Db)
      → Balanced db (process_objects s d as' o db).2
  unfolding process_objects
  process_objects-Balanced [] o db = Balanced-refl db
  process_objects-Balanced (a ∷ as') o db =
      let (item, db') = process_object s d a o db in
      Balanced-trans db db' _ (process_object-Balanced a o db)
        (process_objects-Balanced as' item.incident db')

  transaction-Balanced : (as' : List Accepted) (db : Db) → Balanced db (transaction s d as' db).2
  unfolding transaction
  transaction-Balanced as' db =
      let o = find_by (open_in_zone d.zone_id) db.incidents in
      let loop = process_objects s d as' o db in
      let w = any_by item_is_wrong_way loop.0 in
      let resolved_db = resolve_incident_if_needed s loop.1 w loop.2 in
      Balanced-trans db loop.2 _ (process_objects-Balanced as' o db) (
        Balanced-trans loop.2 resolved_db _
          (Balanced-of_Same loop.2 resolved_db (resolve-Same s d loop.1 w loop.2))
          (Balanced-of_Same resolved_db _ (deactivate-Same s d as' resolved_db)))

-- However a snapshot is received, the total of the wrong-way counts grows by as much as the number
-- of stored wrong-way events, and so do the two pedestrian columns with their events.
pub process_snapshot-Balanced : (db : Db) (s : Snapshot) → Balanced db (process_snapshot db s).0
unfolding process_snapshot process_from touch_device
process_snapshot-Balanced db s = elim (Option-cases (validate_snapshot s)) [
  | inr (e, h) ↦ rw (h, process_snapshot) (Balanced-refl db)
  | inl h ↦ elim (Option-cases (lidar_pc (find_source_device s.source_device_code db))) [
    | inl k ↦ rw (h, k, process_snapshot) (Balanced-refl db)
    | inr (d, k) ↦ rw (h, k, process_snapshot) (received-Balanced d)
  ]
]
  where
    received-Balanced : (d : Device) → Balanced db (process_from s d (touch_device s d db)).0
    received-Balanced d = elim (Bool-cases (nothing_accepted s)) [
      | inl e ↦ rw e (Balanced-same db _ refl refl)
      | inr e ↦ rw e (
          Balanced-trans db (touch_device s d db) _ (Balanced-same db _ refl refl)
            (transaction-Balanced s d (split_objects s.objects).0 (touch_device s d db)))
    ]
