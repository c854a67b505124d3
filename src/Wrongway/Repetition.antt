-- ===== src/Wrongway/Repetition.antt =====
-- A snapshot that arrives twice: the second transaction stores no event, no log line and no count.
use lidar_dashboard.Prelude.{
  ◌≡◌, refl, ◌∙◌, inl, inr, Bool, true, false, Option, none, some, List, [], ◌∷◌, arith, ◌==◌,
  if◌then◌else◌, Bool-cases,
}
use lidar_dashboard.Prelude.Tables.{find_by, any_by, All, find_by_passes}
use lidar_dashboard.Wrongway.Model.{Key, Device, Track, Incident, Db, Snapshot}
use lidar_dashboard.Wrongway.Validate.{Accepted}
use lidar_dashboard.Wrongway.Process.{
  track_key, object_time, save_track, count_first_sight, take_incident, is_stale, needs_event,
  process_seen, process_object, process_objects,
}
use lidar_dashboard.Wrongway.Receive.{
  resolve_incident_if_needed, is_listed, is_missing, deactivated, snapshot_time,
  deactivate_missing_tracks, open_in_zone, item_is_wrong_way, transaction,
}
use lidar_dashboard.Wrongway.Tracks.{
  track_at, process_object-stale, process_object-fresh, tracks-process_seen,
  track_at-save_track_other, track_at-deactivate, tracks-resolve,
}
use lidar_dashboard.Wrongway.Replay.{
  Distinct, Same, Same-refl, Same-trans, Settled, Settled-same, finish_quiet, known-Same,
  process_object-Settled, take-Same,
}

module _ (s : Snapshot) (d : Device) where
  -- Another object's track is left alone.
  track_at-process_object_other :
      (a b : Accepted) (o : Option Incident) (db : Db)
      → (b.track_id == a.track_id) ≡ false
      → track_at d.id b.track_id (process_object s d a o db).1 ≡ track_at d.id b.track_id db
  track_at-process_object_other a b o db h =
      elim (Bool-cases (is_stale (track_at d.id a.track_id db) (object_time s a))) [
        | inl e ↦ rw (process_object-stale s d a o db e)
        | inr e ↦
            rw
              (
                process_object-fresh s d a o db e,
                tracks-process_seen s d a (track_at d.id a.track_id db) o db,
              )
              (track_at-save_track_other d.id b.track_id d a (object_time s a) db (ground arith))
      ]

  -- A settled object changes nothing that is counted or kept as history.
  seen-Same :
      (a : Accepted) (o : Option Incident) (db : Db) (t : Track)
      → needs_event a.entry.event.original_type (some t) ≡ false
      → Same db (process_seen s d a (some t) o db).1
  unfolding process_seen
  seen-Same a o db t h =
      let counted = count_first_sight s d a (some t) (save_track d a (object_time s a) db) in
      let (o', taken) = take_incident d a.entry.event.original_type o counted in
      rw (finish_quiet s d a (some t) t.id o' taken h) (
        Same-trans db counted taken (known-Same s d a t (object_time s a) db)
          (take-Same d a.entry.event.original_type o counted))

  Settled-Same :
      (a : Accepted) (o : Option Incident) (db : Db)
      → Settled s d a db
      → Same db (process_object s d a o db).1
  Settled-Same a o db (t, h, k) = elim (Bool-cases (is_stale (some t) (object_time s a))) [
    | inl e ↦ rw (process_object-stale s d a o db (rw h e)) (Same-refl db)
    | inr e ↦
        rw (process_object-fresh s d a o db (rw h e), h)
          (seen-Same a o db t (elim k [ inl stale ↦ absurd (ground arith) | inr quiet ↦ quiet ]))
  ]

  listed_apart :
      (a b : Accepted) (as' : List Accepted)
      → is_listed b.track_id (a ∷ as') ≡ false
      → ((b.track_id == a.track_id) ≡ false) × (is_listed b.track_id as' ≡ false)
  listed_apart a b as' h = ground arith

  -- An object whose track id is not in the list keeps its track through the loop.
  track_at-process_objects_other :
      (b : Accepted) (as' : List Accepted) (o : Option Incident) (db : Db)
      → is_listed b.track_id as' ≡ false
      → track_at d.id b.track_id (process_objects s d as' o db).2 ≡ track_at d.id b.track_id db
  unfolding process_objects
  track_at-process_objects_other b [] o db h = refl
  track_at-process_objects_other b (a ∷ as') o db h =
      let (apart, rest) = listed_apart a b as' h in
      let (item, db') = process_object s d a o db in
      track_at-process_objects_other b as' item.incident db' rest
      ∙ track_at-process_object_other a b o db apart

  -- After the loop all objects are settled.
  process_objects-Settled :
      (as' : List Accepted) (o : Option Incident) (db : Db)
      → Distinct as'
      → All (λ a. Settled s d a (process_objects s d as' o db).2) as'
  unfolding process_objects
  process_objects-Settled [] o db h = tt
  process_objects-Settled (a ∷ as') o db h =
      let (item, db') = process_object s d a o db in
      (
        Settled-same s d a db' (process_objects s d as' item.incident db').2
            (track_at-process_objects_other a as' item.incident db' h.0)
            (process_object-Settled s d a o db),
        process_objects-Settled as' item.incident db' h.1,
      )

  All-Settled_same :
      (as' : List Accepted) (db db' : Db)
      → All (λ a. track_at d.id a.track_id db' ≡ track_at d.id a.track_id db) as'
      → All (λ a. Settled s d a db) as'
      → All (λ a. Settled s d a db') as'
  All-Settled_same [] db db' h k = tt
  All-Settled_same (a ∷ as') db db' h k =
      (Settled-same s d a db db' h.0 k.0, All-Settled_same as' db db' h.1 k.1)

  others_kept :
      (a : Accepted) (o : Option Incident) (db : Db) (as' : List Accepted)
      → is_listed a.track_id as' ≡ false
      → All
          (λ b.
            track_at d.id b.track_id (process_object s d a o db).1 ≡ track_at d.id b.track_id db)
          as'
  others_kept a o db [] h = tt
  others_kept a o db (b ∷ as') h =
      (track_at-process_object_other a b o db (ground arith), others_kept a o db as' (ground arith))

  -- A loop over settled objects.
  process_objects-Same :
      (as' : List Accepted) (o : Option Incident) (db : Db)
      → Distinct as'
      → All (λ a. Settled s d a db) as'
      → Same db (process_objects s d as' o db).2
  unfolding process_objects
  process_objects-Same [] o db h k = Same-refl db
  process_objects-Same (a ∷ as') o db h k =
      let (item, db') = process_object s d a o db in
      Same-trans db db' _ (Settled-Same a o db k.0) (
        process_objects-Same as' item.incident db' h.1
          (All-Settled_same as' db db' (others_kept a o db as' h.0) k.1))

  pub resolve-Same :
      (o : Option Incident) (w : Bool) (db : Db) → Same db (resolve_incident_if_needed s o w db)
  unfolding resolve_incident_if_needed
  resolve-Same none w db = Same-refl db
  resolve-Same (some i) w db = ground arith

  -- Deactivation leaves the tracks of the snapshot's own objects alone.
  deactivate-listed :
      (as' : List Accepted) (a : Accepted) (db : Db)
      → is_listed a.track_id as' ≡ true
      → track_at d.id a.track_id (deactivate_missing_tracks s d as' db).1
        ≡ track_at d.id a.track_id db
  deactivate-listed as' a db h =
      track_at-deactivate d.id a.track_id s d as' db
      ∙ kept (track_at d.id a.track_id db)
          (λ t e. find_by_passes (track_key d.id a.track_id) db.tracks t e)
    where
      kept :
          (o : Option Track)
          → ((t : Track) → o ≡ some t → track_key d.id a.track_id t ≡ true)
          → elim o [
            | none ↦ none
            | some t ↦ some (
                if is_missing d (snapshot_time s) as' t then deactivated (snapshot_time s) t else t)
          ]
            ≡ o
      kept none k = refl
      kept (some t) k =
          let same : t.track_id ≡ a.track_id = ground (arith, k t refl) in
          let listed : is_listed t.track_id as' ≡ true = rw same h in rw listed (ground arith)

  All-listed :
      (part whole : List Accepted)
      → ((id : Key) → is_listed id part ≡ true → is_listed id whole ≡ true)
      → All (λ a. is_listed a.track_id whole ≡ true) part
  All-listed [] whole h = tt
  All-listed (a ∷ part) whole h =
      (h a.track_id (ground arith), All-listed part whole (λ id k. h id (ground arith)))

  deactivate-kept :
      (whole part : List Accepted) (db : Db)
      → All (λ a. is_listed a.track_id whole ≡ true) part
      → All
          (λ a.
            track_at d.id a.track_id (deactivate_missing_tracks s d whole db).1
            ≡ track_at d.id a.track_id db)
          part
  deactivate-kept whole [] db h = tt
  deactivate-kept whole (a ∷ part) db h =
      (deactivate-listed whole a db h.0, deactivate-kept whole part db h.1)

  pub deactivate-Same :
      (as' : List Accepted) (db : Db) → Same db (deactivate_missing_tracks s d as' db).1
  unfolding deactivate_missing_tracks
  deactivate-Same as' db = record { events = refl; logs = refl; stats = refl }

  resolve_tracks :
      (part : List Accepted) (o : Option Incident) (w : Bool) (db : Db)
      → All
          (λ a.
            track_at d.id a.track_id (resolve_incident_if_needed s o w db)
            ≡ track_at d.id a.track_id db)
          part
  resolve_tracks [] o w db = tt
  resolve_tracks (a ∷ part) o w db = (rw (tracks-resolve s o w db), resolve_tracks part o w db)

  transaction-Settled :
      (as' : List Accepted) (db : Db)
      → Distinct as'
      → All (λ a. Settled s d a (transaction s d as' db).2) as'
  unfolding transaction
  transaction-Settled as' db h =
      let o = find_by (open_in_zone d.zone_id) db.incidents in
      let loop = process_objects s d as' o db in
      let w = any_by item_is_wrong_way loop.0 in
      let resolved_db = resolve_incident_if_needed s loop.1 w loop.2 in
      All-Settled_same as' resolved_db (deactivate_missing_tracks s d as' resolved_db).1
        (deactivate-kept as' as' resolved_db (All-listed as' as' (λ id k. k)))
        (All-Settled_same as' loop.2 resolved_db (resolve_tracks as' loop.1 w loop.2)
          (process_objects-Settled as' o db h))

  transaction-Same :
      (as' : List Accepted) (db : Db)
      → Distinct as'
      → All (λ a. Settled s d a db) as'
      → Same db (transaction s d as' db).2
  unfolding transaction
  transaction-Same as' db h k =
      let o = find_by (open_in_zone d.zone_id) db.incidents in
      let loop = process_objects s d as' o db in
      let w = any_by item_is_wrong_way loop.0 in
      let resolved_db = resolve_incident_if_needed s loop.1 w loop.2 in
      Same-trans db loop.2 _ (process_objects-Same as' o db h k) (
        Same-trans loop.2 resolved_db _ (resolve-Same loop.1 w loop.2)
          (deactivate-Same as' resolved_db))

  -- A snapshot whose objects have different track ids can be received twice: its second
  -- transaction leaves the stored events, the log and the daily counts as the first one left them.
  pub transaction-twice :
      (as' : List Accepted) (db : Db)
      → Distinct as'
      → Same (transaction s d as' db).2 (transaction s d as' (transaction s d as' db).2).2
  transaction-twice as' db h =
      transaction-Same as' (transaction s d as' db).2 h (transaction-Settled as' db h)
