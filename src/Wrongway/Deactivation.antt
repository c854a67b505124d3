-- ===== src/Wrongway/Deactivation.antt =====
-- The tracks that a snapshot deactivates.
use lidar_dashboard.Prelude.{
  ◌-◌, ◌≤◌, ◌≡◌, refl, ap, ◌∙◌, ◌⊎◌, inl, inr, Bool, true, false, ◌&&◌, Option, List, [], ◌∷◌,
  arith, ◌==◌, ltb, Bool-cases,
}
use lidar_dashboard.Prelude.Tables.{find_by, update_by, count_by, any_by, upsert, All}
use lidar_dashboard.Wrongway.Model.{Time, Device, Track, Incident, Db, Snapshot}
use lidar_dashboard.Wrongway.Validate.{track_inactive_timeout_ms, Accepted}
use lidar_dashboard.Wrongway.Process.{
  track_key, object_time, seen_again, first_seen, save_track, is_stale, process_object,
  process_objects,
}
use lidar_dashboard.Wrongway.Receive.{
  is_listed, is_missing, deactivated, snapshot_time, deactivate_missing_tracks, open_in_zone,
  item_is_wrong_way, transaction,
}
use lidar_dashboard.Wrongway.Tracks.{
  track_at, process_object-stale, process_object-fresh, tracks-process_seen, tracks-resolve,
}

-- A track that a snapshot may leave active: of another device, seen in the last three seconds before it,
-- or listed by it.
abbrev pub IsCurrent : Device → Time → List Accepted → Track → Type 0
IsCurrent d at accepted t =
    t.device_id ≡ d.id
    → t.is_active ≡ true
    → (at - 3000 ≤ t.last_seen_at) ⊎ (is_listed t.track_id accepted ≡ true)

count_by-upsert {ℓ} :
    {A : Type ℓ} (p k : A → Bool) (u : A → A) (c : A) (xs : List A)
    → ((x : A) → k x ≡ true → p x ≡ false)
    → ((x : A) → k x ≡ true → p (u x) ≡ false)
    → p c ≡ false
    → count_by p (upsert k u c xs) ≡ count_by p xs
unfolding count_by upsert
count_by-upsert p k u c [] before after made = rw made refl
count_by-upsert p k u c (x ∷ xs) before after made = elim (Bool-cases (k x)) [
  | inl e ↦ rw (e, before x e, after x e) refl
  | inr e ↦ rw e (omega (arith, count_by-upsert p k u c xs before after made))
]

unlisted :
    (d : Device) (at : Time) (accepted : List Accepted) (t : Track)
    → is_listed t.track_id accepted ≡ true
    → is_missing d at accepted t ≡ false
unlisted d at accepted t h = rw h (
    and_false (t.device_id == d.id) t.is_active
      (ltb t.last_seen_at (at - track_inactive_timeout_ms)))
  where
    and_false : (a b c : Bool) → (a && b && c && false) ≡ false
    and_false a b c = ground arith

module _ (s : Snapshot) (d : Device) (accepted : List Accepted) where
  abbrev missing : Track → Bool
  missing t = is_missing d (snapshot_time s) accepted t

  save_track-missing :
      (a : Accepted) (at : Time) (db : Db)
      → is_listed a.track_id accepted ≡ true
      → count_by missing (save_track d a at db).tracks ≡ count_by missing db.tracks
  unfolding save_track
  save_track-missing a at db h =
      count_by-upsert missing (track_key d.id a.track_id) (seen_again d a at)
        (first_seen d a at db.next_id) db.tracks
        (λ t k. unlisted d (snapshot_time s) accepted t (listed t k))
        (λ t k. unlisted d (snapshot_time s) accepted (seen_again d a at t) (listed t k))
        (unlisted d (snapshot_time s) accepted (first_seen d a at db.next_id) h)
    where
      listed :
          (t : Track) → track_key d.id a.track_id t ≡ true → is_listed t.track_id accepted ≡ true
      listed t k = let same : t.track_id ≡ a.track_id = ground (arith, k) in rw same h

  process_object-missing :
      (a : Accepted) (i : Option Incident) (db : Db)
      → is_listed a.track_id accepted ≡ true
      → count_by missing (process_object s d a i db).1.tracks ≡ count_by missing db.tracks
  process_object-missing a i db h =
      elim (Bool-cases (is_stale (track_at d.id a.track_id db) (object_time s a))) [
        | inl e ↦ rw (process_object-stale s d a i db e) refl
        | inr e ↦ rw (process_object-fresh s d a i db e) (
            ap (λ (ts : List Track). count_by missing ts)
              (tracks-process_seen s d a (track_at d.id a.track_id db) i db)
            ∙ save_track-missing a (object_time s a) db h)
      ]

  process_objects-missing :
      (as' : List Accepted) (i : Option Incident) (db : Db)
      → All (λ a. is_listed a.track_id accepted ≡ true) as'
      → count_by missing (process_objects s d as' i db).2.tracks ≡ count_by missing db.tracks
  unfolding process_objects
  process_objects-missing [] i db h = refl
  process_objects-missing (a ∷ as') i db h =
      let (item, db') = process_object s d a i db in
      process_objects-missing as' item.incident db' h.1 ∙ process_object-missing a i db h.0

All-listed : (as' : List Accepted) → All (λ a. is_listed a.track_id as' ≡ true) as'
All-listed [] = tt
All-listed (a ∷ as') = (ground arith, more as' (All-listed as'))
  where
    more :
        (bs : List Accepted)
        → All (λ b. is_listed b.track_id as' ≡ true) bs
        → All (λ b. is_listed b.track_id (a ∷ as') ≡ true) bs
    more [] h = tt
    more (b ∷ bs) h = (ground (arith, h.0), more bs h.1)

-- As many tracks are deactivated as were missing before the snapshot.
pub transaction-missing :
    (s : Snapshot) (d : Device) (as' : List Accepted) (db : Db)
    → (transaction s d as' db).1 ≡ count_by (is_missing d (snapshot_time s) as') db.tracks
unfolding transaction deactivate_missing_tracks
transaction-missing s d as' db =
    let o = find_by (open_in_zone d.zone_id) db.incidents in
    let loop = process_objects s d as' o db in
    ap (λ (ts : List Track). count_by (is_missing d (snapshot_time s) as') ts)
      (tracks-resolve s loop.1 (any_by item_is_wrong_way loop.0) loop.2)
    ∙ process_objects-missing s d as' as' o db (All-listed as')

left-IsCurrent :
    (d : Device) (at : Time) (as' : List Accepted) (ts : List Track)
    → All (IsCurrent d at as') (update_by (is_missing d at as') (deactivated at) ts)
unfolding update_by
left-IsCurrent d at as' [] = tt
left-IsCurrent d at as' (t ∷ ts) = elim (Bool-cases (is_missing d at as' t)) [
  | inl e ↦ rw e ((λ same active. absurd (cc)), left-IsCurrent d at as' ts)
  | inr e ↦ rw e (kept e, left-IsCurrent d at as' ts)
]
  where
    kept : is_missing d at as' t ≡ false → IsCurrent d at as' t
    kept e same active = elim (Bool-cases (is_listed t.track_id as')) [
      | inl k ↦ inr k
      | inr k ↦ inl (ground (arith, e, same, active, k))
    ]

-- No track is left active that is not current.
pub transaction-IsCurrent :
    (s : Snapshot) (d : Device) (as' : List Accepted) (db : Db)
    → All (IsCurrent d (snapshot_time s) as') (transaction s d as' db).2.tracks
unfolding transaction deactivate_missing_tracks
transaction-IsCurrent s d as' db = left-IsCurrent d (snapshot_time s) as' _
