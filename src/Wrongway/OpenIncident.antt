-- ===== src/Wrongway/OpenIncident.antt =====
-- What `processSnapshot` does to the open incident of the device's zone.
use lidar_dashboard.Prelude.{
  ◌≤◌, ◌≡◌, refl, sym, ap, ◌∙◌, ◌⊎◌, inl, inr, true, false, Option, some, arith, Bool-cases,
}
use lidar_dashboard.Prelude.Tables.{find_by}
use lidar_dashboard.Wrongway.Model.{
  Key, Time, EventType, wrong_way, active, Device, Track, Incident, Db, Snapshot,
}
use lidar_dashboard.Wrongway.Validate.{Accepted}
use lidar_dashboard.Wrongway.Rows.{increment_daily_stat, is_wrong_way, create_traffic_event}
use lidar_dashboard.Wrongway.Process.{
  object_time, save_track, saved_id, count_first_sight, take_incident, record_change, is_stale,
  finish_object, process_seen, process_object,
}
use lidar_dashboard.Wrongway.Receive.{open_in_zone}
use lidar_dashboard.Wrongway.Tracks.{track_at, process_object-stale, process_object-fresh}
use lidar_dashboard.Wrongway.Incidents.{Inv, Inv-same, ensure-Ensured}

-- The incident that is handed on is the open one of the zone.
pub record Holds (d : Device) (o : Option Incident) (db : Db) : Type 0 where
  pub inv : Inv db
  pub found : find_by (open_in_zone d.zone_id) db.incidents ≡ o

-- The steps that leave the incidents alone.
abbrev pub Untouched : Db → Db → Type 0
Untouched db db' = (db'.incidents ≡ db.incidents) × (db.next_id ≤ db'.next_id)

pub Untouched-Holds :
    (d : Device) (o : Option Incident) (db db' : Db)
    → Untouched db db'
    → Holds d o db
    → Holds d o db'
Untouched-Holds d o db db' u h = record {
  inv = Inv-same db db' u.0 u.1 h.inv;
  found = ap (find_by (open_in_zone d.zone_id)) u.0 ∙ h.found;
}

seen-Untouched :
    (s : Snapshot) (d : Device) (a : Accepted) (o : Option Track) (at : Time) (db : Db)
    → Untouched db (count_first_sight s d a o (save_track d a at db))
unfolding count_first_sight save_track increment_daily_stat
seen-Untouched s d a o at db = ground arith

finish-Untouched :
    (s : Snapshot) (d : Device) (a : Accepted) (o : Option Track) (v : Key) (i : Option Incident)
    (db : Db)
    → Untouched db (finish_object s d a o v i db).1
unfolding finish_object record_change create_traffic_event increment_daily_stat
finish-Untouched s d a o v i db = ground arith

take-Holds :
    (d : Device) (t : EventType) (o : Option Incident) (db : Db)
    → Holds d o db
    → Holds d (take_incident d t o db).0 (take_incident d t o db).1
unfolding take_incident
take-Holds d wrong_way o db h =
    let e = ensure-Ensured d o db h.inv h.found in record { inv = e.inv; found = e.found }
take-Holds d _ o db h = h

-- After a wrong-way object the incident handed on is active; it stays so.
abbrev pub IsActive : Option Incident → Type 0
IsActive o = (i : Incident) × (o ≡ some i) × (i.status ≡ active)

take_wrong-IsActive :
    (d : Device) (o : Option Incident) (db : Db)
    → Holds d o db
    → IsActive (take_incident d wrong_way o db).0
unfolding take_incident
take_wrong-IsActive d o db h = let e = ensure-Ensured d o db h.inv h.found in (_, refl, e.is_active)

take-IsActive :
    (d : Device) (t : EventType) (o : Option Incident) (db : Db)
    → Holds d o db
    → IsActive o
    → IsActive (take_incident d t o db).0
unfolding take_incident
take-IsActive d wrong_way o db h k = take_wrong-IsActive d o db h
take-IsActive d _ o db h k = k

IsActive-of :
    (d : Device) (t : EventType) (o : Option Incident) (db : Db)
    → Holds d o db
    → (is_wrong_way t ≡ true) ⊎ IsActive o
    → IsActive (take_incident d t o db).0
IsActive-of d t o db h (inr k) = take-IsActive d t o db h k
IsActive-of d wrong_way o db h (inl e) = take_wrong-IsActive d o db h
IsActive-of d _ o db h (inl e) = absurd (ground arith)

take_calm :
    (d : Device) (t : EventType) (o : Option Incident) (db : Db)
    → is_wrong_way t ≡ false
    → ((take_incident d t o db).0 ≡ o) × ((take_incident d t o db).1.incidents ≡ db.incidents)
unfolding take_incident
take_calm d t o db e = ground arith

finish_object-kept :
    (s : Snapshot) (d : Device) (a : Accepted) (t : Option Track) (v : Key) (o : Option Incident)
    (db : Db)
    → ((finish_object s d a t v o db).0.incident ≡ o)
      × ((finish_object s d a t v o db).0.is_wrong_way ≡ is_wrong_way a.entry.event.original_type)
unfolding finish_object
finish_object-kept s d a t v o db = ground arith

process_seen-Holds :
    (s : Snapshot) (d : Device) (a : Accepted) (t : Option Track) (o : Option Incident) (db : Db)
    → Holds d o db
    → Holds d (process_seen s d a t o db).0.incident (process_seen s d a t o db).1
unfolding process_seen
process_seen-Holds s d a t o db h =
    let counted = count_first_sight s d a t (save_track d a (object_time s a) db) in
    let k = Untouched-Holds d o db counted (seen-Untouched s d a t (object_time s a) db) h in
    let (o', taken) = take_incident d a.entry.event.original_type o counted in
    rw ((finish_object-kept s d a t (saved_id t db) o' taken).0) (
      Untouched-Holds d o' taken _ (finish-Untouched s d a t (saved_id t db) o' taken)
        (take-Holds d a.entry.event.original_type o counted k))

process_seen-IsActive :
    (s : Snapshot) (d : Device) (a : Accepted) (t : Option Track) (o : Option Incident) (db : Db)
    → Holds d o db
    → ((process_seen s d a t o db).0.is_wrong_way ≡ true) ⊎ IsActive o
    → IsActive (process_seen s d a t o db).0.incident
unfolding process_seen
process_seen-IsActive s d a t o db h w =
    let counted = count_first_sight s d a t (save_track d a (object_time s a) db) in
    let k = Untouched-Holds d o db counted (seen-Untouched s d a t (object_time s a) db) h in
    let (o', taken) = take_incident d a.entry.event.original_type o counted in
    let kept = finish_object-kept s d a t (saved_id t db) o' taken in
    rw (kept.0) (
      IsActive-of d a.entry.event.original_type o counted k
        (elim w [ inl e ↦ inl (sym kept.1 ∙ e) | inr i ↦ inr i ]))

process_seen_calm :
    (s : Snapshot) (d : Device) (a : Accepted) (t : Option Track) (o : Option Incident) (db : Db)
    → (process_seen s d a t o db).0.is_wrong_way ≡ false
    → ((process_seen s d a t o db).0.incident ≡ o)
      × ((process_seen s d a t o db).1.incidents ≡ db.incidents)
unfolding process_seen
process_seen_calm s d a t o db e =
    let counted = count_first_sight s d a t (save_track d a (object_time s a) db) in
    let (o', taken) = take_incident d a.entry.event.original_type o counted in
    let kept = finish_object-kept s d a t (saved_id t db) o' taken in
    let calm = take_calm d a.entry.event.original_type o counted (sym kept.1 ∙ e) in
    (
      kept.0 ∙ calm.0,
      (finish-Untouched s d a t (saved_id t db) o' taken).0
          ∙ (calm.1 ∙ (seen-Untouched s d a t (object_time s a) db).0),
    )

module _ (s : Snapshot) (d : Device) where
  pub process_object-Holds :
      (a : Accepted) (o : Option Incident) (db : Db)
      → Holds d o db
      → Holds d (process_object s d a o db).0.incident (process_object s d a o db).1
  process_object-Holds a o db h =
      elim (Bool-cases (is_stale (track_at d.id a.track_id db) (object_time s a))) [
        | inl e ↦ rw (process_object-stale s d a o db e) h
        | inr e ↦
            rw (process_object-fresh s d a o db e)
              (process_seen-Holds s d a (track_at d.id a.track_id db) o db h)
      ]

  pub process_object-IsActive :
      (a : Accepted) (o : Option Incident) (db : Db)
      → Holds d o db
      → ((process_object s d a o db).0.is_wrong_way ≡ true) ⊎ IsActive o
      → IsActive (process_object s d a o db).0.incident
  process_object-IsActive a o db h w =
      elim (Bool-cases (is_stale (track_at d.id a.track_id db) (object_time s a))) [
        | inl e ↦
            let w' = rw (process_object-stale s d a o db e) at w in
            rw (process_object-stale s d a o db e)
              (elim w' [ inl x ↦ absurd (ground arith) | inr x ↦ x ])
        | inr e ↦
            let w' = rw (process_object-fresh s d a o db e) at w in
            rw (process_object-fresh s d a o db e)
              (process_seen-IsActive s d a (track_at d.id a.track_id db) o db h w')
      ]

  pub process_object_calm :
      (a : Accepted) (o : Option Incident) (db : Db)
      → (process_object s d a o db).0.is_wrong_way ≡ false
      → ((process_object s d a o db).0.incident ≡ o)
        × ((process_object s d a o db).1.incidents ≡ db.incidents)
  process_object_calm a o db w =
      elim (Bool-cases (is_stale (track_at d.id a.track_id db) (object_time s a))) [
        | inl e ↦ rw (process_object-stale s d a o db e) (refl, refl)
        | inr e ↦
            let w' = rw (process_object-fresh s d a o db e) at w in
            rw (process_object-fresh s d a o db e)
              (process_seen_calm s d a (track_at d.id a.track_id db) o db w')
      ]
