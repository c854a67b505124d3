-- ===== src/Wrongway/Tracks.antt =====
-- The tracks of a device under `processSnapshot`: a track is found again by its key, and never
-- goes back in time.
use lidar_dashboard.Prelude.{
  ℕ, ◌≤◌, ◌≡◌, refl, ◌∙◌, inl, inr, Bool, true, false, ◌&&◌, Option, none, some, List, [], ◌∷◌,
  arith, ◌==◌, if◌then◌else◌, Bool-cases, Option-cases,
}
use lidar_dashboard.Prelude.Tables.{
  find_by, any_by, find_by-upsert_self, find_by-upsert_other, find_by-update_by,
}
use lidar_dashboard.Wrongway.Model.{Key, Time, EventType, Device, Track, Incident, Db, Snapshot}
use lidar_dashboard.Wrongway.Validate.{
  validate_snapshot, Accepted, split_objects, nothing_accepted, find_source_device,
}
use lidar_dashboard.Wrongway.Rows.{
  Increments, increment_daily_stat, ensure_active_incident, create_traffic_event,
}
use lidar_dashboard.Wrongway.Process.{
  track_key, object_time, seen_again, first_seen, save_track, count_first_sight, take_incident,
  record_change, stale_item, is_stale, finish_object, process_seen, process_object, process_objects,
}
use lidar_dashboard.Wrongway.Receive.{
  resolve_incident_if_needed, is_missing, deactivated, snapshot_time, deactivate_missing_tracks,
  open_in_zone, item_is_wrong_way, transaction, touch_device, process_from, lidar_pc,
  process_snapshot,
}

-- The track of a device under a track id.
abbrev pub track_at : Key → Key → Db → Option Track
track_at device track db = find_by (track_key device track) db.tracks

-- The same track, first seen at the same time, and seen last at that time or later.
abbrev pub Advances : Option Track → Option Track → Type 0
Advances none o = Unit {0}
Advances (some t) none = ⊥
Advances (some t) (some u) =
    (u.id ≡ t.id) × (u.first_seen_at ≡ t.first_seen_at) × (t.last_seen_at ≤ u.last_seen_at)

pub Advances-refl : (o : Option Track) → Advances o o
Advances-refl none = tt
Advances-refl (some t) = (refl, refl, omega arith)

pub Advances-trans : (o p q : Option Track) → Advances o p → Advances p q → Advances o q
Advances-trans none p q h k = tt
Advances-trans (some t) (some u) (some v) h k = (k.0 ∙ h.0, k.1 ∙ h.1, omega arith)
Advances-trans (some t) (some u) none h k = k
Advances-trans (some t) none q h k = absurd h

same_key :
    (d e t u : Key) (x : Track)
    → track_key d t x ≡ true
    → track_key e u x ≡ true
    → (d ≡ e) × (t ≡ u)
same_key d e t u x h k = ground arith

-- What stands under a key after an upsert under a key.
pub track_at-save_track_self :
    (d : Device) (a : Accepted) (at : Time) (db : Db)
    → track_at d.id a.track_id (save_track d a at db)
      ≡ some (elim (track_at d.id a.track_id db) [
        | none ↦ first_seen d a at db.next_id
        | some t ↦ seen_again d a at t
      ])
unfolding save_track
track_at-save_track_self d a at db =
    find_by-upsert_self (track_key d.id a.track_id) (seen_again d a at)
      (first_seen d a at db.next_id) db.tracks (λ x h. h) (ground arith)

pub track_at-save_track_other :
    (device track : Key) (d : Device) (a : Accepted) (at : Time) (db : Db)
    → (device == d.id && track == a.track_id) ≡ false
    → track_at device track (save_track d a at db) ≡ track_at device track db
unfolding save_track
track_at-save_track_other device track d a at db h =
    find_by-upsert_other (track_key d.id a.track_id) (track_key device track) (seen_again d a at)
      (first_seen d a at db.next_id) db.tracks (λ x k. ground arith) (λ x k. ground arith)
      (ground arith)

tracks-increment :
    (s : Snapshot) (d : Device) (i : Increments) (db : Db)
    → (increment_daily_stat s d i db).tracks ≡ db.tracks
unfolding increment_daily_stat
tracks-increment s d i db = refl

tracks-count_first_sight :
    (s : Snapshot) (d : Device) (a : Accepted) (o : Option Track) (db : Db)
    → (count_first_sight s d a o db).tracks ≡ db.tracks
unfolding count_first_sight increment_daily_stat
tracks-count_first_sight s d a o db = ground arith

tracks-take_incident :
    (d : Device) (t : EventType) (o : Option Incident) (db : Db)
    → (take_incident d t o db).1.tracks ≡ db.tracks
unfolding take_incident ensure_active_incident
tracks-take_incident d t none db = ground arith
tracks-take_incident d t (some i) db = ground arith

tracks-finish_object :
    (s : Snapshot) (d : Device) (a : Accepted) (o : Option Track) (v : Key) (i : Option Incident)
    (db : Db)
    → (finish_object s d a o v i db).1.tracks ≡ db.tracks
unfolding finish_object record_change create_traffic_event increment_daily_stat
tracks-finish_object s d a o v i db = ground arith

-- Of all that happens to an object, only the upsert touches the tracks.
pub tracks-process_seen :
    (s : Snapshot) (d : Device) (a : Accepted) (o : Option Track) (i : Option Incident) (db : Db)
    → (process_seen s d a o i db).1.tracks ≡ (save_track d a (object_time s a) db).tracks
unfolding process_seen
tracks-process_seen s d a o i db =
    tracks-finish_object s d a o _ _ _
    ∙ (tracks-take_incident d a.entry.event.original_type i _
        ∙ tracks-count_first_sight s d a o (save_track d a (object_time s a) db))

pub process_object-stale :
    (s : Snapshot) (d : Device) (a : Accepted) (i : Option Incident) (db : Db)
    → is_stale (track_at d.id a.track_id db) (object_time s a) ≡ true
    → process_object s d a i db ≡ (stale_item a i, db)
unfolding process_object
process_object-stale s d a i db h = rw h

pub process_object-fresh :
    (s : Snapshot) (d : Device) (a : Accepted) (i : Option Incident) (db : Db)
    → is_stale (track_at d.id a.track_id db) (object_time s a) ≡ false
    → process_object s d a i db ≡ process_seen s d a (track_at d.id a.track_id db) i db
unfolding process_object
process_object-fresh s d a i db h = rw h

-- The saved row of a track that is not newer than the object goes on from the stored one.
saved-Advances :
    (o : Option Track) (d : Device) (a : Accepted) (at n : ℕ)
    → is_stale o at ≡ false
    → Advances o (some (elim o [ none ↦ first_seen d a at n | some t ↦ seen_again d a at t ]))
saved-Advances none d a at n h = tt
saved-Advances (some t) d a at n h = (refl, refl, ground arith)

save_track-Advances :
    (device track : Key) (d : Device) (a : Accepted) (at : Time) (db : Db)
    → is_stale (track_at d.id a.track_id db) at ≡ false
    → Advances (track_at device track db) (track_at device track (save_track d a at db))
save_track-Advances device track d a at db fresh =
    elim (Bool-cases (device == d.id && track == a.track_id)) [
      | inl e ↦
          let same_device : device ≡ d.id = ground arith in
          let same_track : track ≡ a.track_id = ground arith in
          rw (same_device, same_track, track_at-save_track_self d a at db)
            (saved-Advances (track_at d.id a.track_id db) d a at db.next_id fresh)
      | inr e ↦
          rw (track_at-save_track_other device track d a at db e)
            (Advances-refl (track_at device track db))
    ]

process_object-Advances :
    (device track : Key) (s : Snapshot) (d : Device) (a : Accepted) (i : Option Incident) (db : Db)
    → Advances (track_at device track db) (track_at device track (process_object s d a i db).1)
process_object-Advances device track s d a i db =
    elim (Bool-cases (is_stale (track_at d.id a.track_id db) (object_time s a))) [
      | inl e ↦ rw (process_object-stale s d a i db e) (Advances-refl (track_at device track db))
      | inr e ↦
          rw
            (
              process_object-fresh s d a i db e,
              tracks-process_seen s d a (track_at d.id a.track_id db) i db,
            )
            (save_track-Advances device track d a (object_time s a) db e)
    ]

process_objects-Advances :
    (device track : Key) (s : Snapshot) (d : Device) (as' : List Accepted) (i : Option Incident)
    (db : Db)
    → Advances (track_at device track db) (track_at device track (process_objects s d as' i db).2)
unfolding process_objects
process_objects-Advances device track s d [] i db = Advances-refl (track_at device track db)
process_objects-Advances device track s d (a ∷ as') i db =
    let db' = (process_object s d a i db).1 in
    Advances-trans (track_at device track db) (track_at device track db') _
      (process_object-Advances device track s d a i db)
      (process_objects-Advances device track s d as' (process_object s d a i db).0.incident db')

pub tracks-resolve :
    (s : Snapshot) (i : Option Incident) (b : Bool) (db : Db)
    → (resolve_incident_if_needed s i b db).tracks ≡ db.tracks
unfolding resolve_incident_if_needed
tracks-resolve s none b db = refl
tracks-resolve s (some i) b db = ground arith

update-Advances :
    (p : Track → Bool) (at : Time) (o : Option Track)
    → Advances o (elim o [ none ↦ none | some t ↦ some (if p t then deactivated at t else t) ])
update-Advances p at none = tt
update-Advances p at (some t) = elim (Bool-cases (p t)) [
  | inl e ↦ rw e (refl, refl, omega arith)
  | inr e ↦ rw e (refl, refl, omega arith)
]

pub track_at-deactivate :
    (device track : Key) (s : Snapshot) (d : Device) (as' : List Accepted) (db : Db)
    → track_at device track (deactivate_missing_tracks s d as' db).1
      ≡ elim (track_at device track db) [
        | none ↦ none
        | some t ↦
            some
              (if is_missing d (snapshot_time s) as' t then deactivated (snapshot_time s) t else t)
      ]
unfolding deactivate_missing_tracks
track_at-deactivate device track s d as' db =
    find_by-update_by (track_key device track) (is_missing d (snapshot_time s) as')
      (deactivated (snapshot_time s)) db.tracks (λ x. refl)

transaction-Advances :
    (device track : Key) (s : Snapshot) (d : Device) (as' : List Accepted) (db : Db)
    → Advances (track_at device track db) (track_at device track (transaction s d as' db).2)
unfolding transaction
transaction-Advances device track s d as' db =
    let run = process_objects s d as' (find_by (open_in_zone d.zone_id) db.incidents) db in
    let kept = tracks-resolve s run.1 (any_by item_is_wrong_way run.0) run.2 in
    rw
      (
        track_at-deactivate device track s d as'
            (resolve_incident_if_needed s run.1 (any_by item_is_wrong_way run.0) run.2),
        kept,
      )
      (Advances-trans (track_at device track db) (track_at device track run.2) _
        (process_objects-Advances device track s d as'
          (find_by (open_in_zone d.zone_id) db.incidents) db)
        (update-Advances (is_missing d (snapshot_time s) as') (snapshot_time s)
          (track_at device track run.2)))

process_from-Advances :
    (device track : Key) (s : Snapshot) (d : Device) (db : Db)
    → Advances (track_at device track db) (track_at device track (process_from s d db).0)
unfolding process_from
process_from-Advances device track s d db = elim (Bool-cases (nothing_accepted s)) [
  | inl e ↦ rw e (Advances-refl (track_at device track db))
  | inr e ↦ rw e (transaction-Advances device track s d (split_objects s.objects).0 db)
]

-- No snapshot, however late or malformed, takes a track back: every track that is stored before
-- is stored afterwards under the same device and track id, with the same row id and first sight,
-- and was last seen no earlier.
pub process_snapshot-Advances :
    (db : Db) (s : Snapshot) (device track : Key)
    → Advances (track_at device track db) (track_at device track (process_snapshot db s).0)
unfolding process_snapshot touch_device
process_snapshot-Advances db s device track = elim (Option-cases (validate_snapshot s)) [
  | inr (e, h) ↦ rw (h, process_snapshot) (Advances-refl (track_at device track db))
  | inl h ↦ elim (Option-cases (lidar_pc (find_source_device s.source_device_code db))) [
    | inl k ↦ rw (h, k, process_snapshot) (Advances-refl (track_at device track db))
    | inr (d, k) ↦
        rw (h, k, process_snapshot) (process_from-Advances device track s d (touch_device s d db))
  ]
]
