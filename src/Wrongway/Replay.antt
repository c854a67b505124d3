-- ===== src/Wrongway/Replay.antt =====
-- What settles an object: after it was processed, the same object calls for nothing more.
use lidar_dashboard.Prelude.{
  ◌≡◌, refl, ◌∙◌, ◌⊎◌, inl, inr, true, false, not, ◌&&◌, ◌||◌, Option, none, some, List, [], ◌∷◌,
  arith, Bool-cases,
}
use lidar_dashboard.Wrongway.Model.{
  Key, Time, EventType, normal_driving, wrong_way, same_type, Device, Track, Incident, Db, Snapshot,
}
use lidar_dashboard.Wrongway.Validate.{Accepted}
use lidar_dashboard.Wrongway.Rows.{ensure_active_incident, is_normal, is_ended}
use lidar_dashboard.Wrongway.Process.{
  object_time, seen_again, first_seen, save_track, count_first_sight, take_incident, is_stale,
  needs_event, finish_object, process_object,
}
use lidar_dashboard.Wrongway.Receive.{is_listed}
use lidar_dashboard.Wrongway.Tracks.{
  track_at, process_object-stale, process_object-fresh, tracks-process_seen,
  track_at-save_track_self,
}

-- The tables that a repetition must not touch.
pub record Same (db db' : Db) : Type 0 where
  pub events : db'.events ≡ db.events
  pub logs : db'.logs ≡ db.logs
  pub stats : db'.stats ≡ db.stats

pub Same-refl : (db : Db) → Same db db
Same-refl db = record { events = refl; logs = refl; stats = refl }

pub Same-trans : (a b c : Db) → Same a b → Same b c → Same a c
Same-trans a b c h k = record {
  events = k.events ∙ h.events;
  logs = k.logs ∙ h.logs;
  stats = k.stats ∙ h.stats;
}

-- No two objects have one track id.
abbrev pub Distinct : List Accepted → Type 0
Distinct [] = Unit {0}
Distinct (a ∷ as') = (is_listed a.track_id as' ≡ false) × Distinct as'

-- A row that was just saved for a type calls for no event of that type.
own_state_settled :
    (e : EventType)
    → (((not (not (is_ended e)) && not (is_ended e)) || not (same_type e e)) && not (is_normal e))
      ≡ false
own_state_settled normal_driving = refl
own_state_settled _ = refl

pub finish_quiet :
    (s : Snapshot) (d : Device) (a : Accepted) (o : Option Track) (v : Key) (i : Option Incident)
    (db : Db)
    → needs_event a.entry.event.original_type o ≡ false
    → (finish_object s d a o v i db).1 ≡ db
unfolding finish_object
finish_quiet s d a o v i db h = rw h

ensure-Same :
    (d : Device) (o : Option Incident) (db : Db) → Same db (ensure_active_incident d o db).1
unfolding ensure_active_incident
ensure-Same d none db = record { events = refl; logs = refl; stats = refl }
ensure-Same d (some i) db = ground arith

pub take-Same :
    (d : Device) (e : EventType) (o : Option Incident) (db : Db)
    → Same db (take_incident d e o db).1
unfolding take_incident
take-Same d wrong_way o db = ensure-Same d o db
take-Same d _ o db = Same-refl db

-- The rows of the other tables when the track exists already.
pub known-Same :
    (s : Snapshot) (d : Device) (a : Accepted) (t : Track) (at : Time) (db : Db)
    → Same db (count_first_sight s d a (some t) (save_track d a at db))
unfolding count_first_sight save_track
known-Same s d a t at db = record { events = refl; logs = refl; stats = refl }

module _ (s : Snapshot) (d : Device) where
  -- The object's track is there, and is newer than the object or has its state already.
  abbrev pub Settled : Accepted → Db → Type 0
  Settled a db =
      (t : Track) × (track_at d.id a.track_id db ≡ some t)
      × ((is_stale (some t) (object_time s a) ≡ true)
          ⊎ (needs_event a.entry.event.original_type (some t) ≡ false))

  pub Settled-same :
      (a : Accepted) (db db' : Db)
      → track_at d.id a.track_id db' ≡ track_at d.id a.track_id db
      → Settled a db
      → Settled a db'
  Settled-same a db db' e (t, h, k) = (t, e ∙ h, k)

  again-settled :
      (a : Accepted) (t : Track)
      → needs_event a.entry.event.original_type (some (seen_again d a (object_time s a) t)) ≡ false
  again-settled a t = own_state_settled a.entry.event.original_type

  first-settled :
      (a : Accepted) (n : Key)
      → needs_event a.entry.event.original_type (some (first_seen d a (object_time s a) n)) ≡ false
  first-settled a n = own_state_settled a.entry.event.original_type

  stale_some :
      (a : Accepted) (o : Option Track) (at : Time)
      → is_stale o at ≡ true
      → (t : Track) × (o ≡ some t) × (is_stale (some t) at ≡ true)
  stale_some a none at h = absurd (ground arith)
  stale_some a (some t) at h = (t, refl, h)

  saved-settled :
      (a : Accepted) (o : Option Track) (n : Key)
      → (t : Track) × (some (elim o [
        | none ↦ first_seen d a (object_time s a) n
        | some x ↦ seen_again d a (object_time s a) x
      ])
          ≡ some t)
        × ((is_stale (some t) (object_time s a) ≡ true)
            ⊎ (needs_event a.entry.event.original_type (some t) ≡ false))
  saved-settled a none n = (_, refl, inr (first-settled a n))
  saved-settled a (some x) n = (_, refl, inr (again-settled a x))

  -- An object that was processed is settled.
  pub process_object-Settled :
      (a : Accepted) (o : Option Incident) (db : Db) → Settled a (process_object s d a o db).1
  process_object-Settled a o db =
      elim (Bool-cases (is_stale (track_at d.id a.track_id db) (object_time s a))) [
        | inl e ↦
            let (t, h, k) = stale_some a (track_at d.id a.track_id db) (object_time s a) e in
            rw (process_object-stale s d a o db e) (t, h, inl k)
        | inr e ↦
            rw
              (
                process_object-fresh s d a o db e,
                tracks-process_seen s d a (track_at d.id a.track_id db) o db,
                track_at-save_track_self d a (object_time s a) db,
              )
              (saved-settled a (track_at d.id a.track_id db) db.next_id)
      ]
