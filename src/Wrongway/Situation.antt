-- ===== src/Wrongway/Situation.antt =====
-- The open incident of a zone over a whole snapshot.
use mathlib.Core.Path.{subst}
use lidar_dashboard.Prelude.{
  ◌≤◌, ◌≡◌, refl, ◌∙◌, ◌⊎◌, inl, inr, Bool, true, false, not, ◌||◌, Option, none, some, List, [],
  ◌∷◌, arith, Bool-cases, Option-cases,
}
use lidar_dashboard.Prelude.Tables.{
  find_by, update_by, count_by, any_by, find_by-zero, count_by-update_by_le,
}
use lidar_dashboard.Wrongway.Model.{Key, Time, Device, Incident, Db, Snapshot}
use lidar_dashboard.Wrongway.Validate.{
  validate_snapshot, Accepted, split_objects, nothing_accepted, find_source_device,
}
use lidar_dashboard.Wrongway.Rows.{same_incident}
use lidar_dashboard.Wrongway.Process.{Item, process_object, process_objects}
use lidar_dashboard.Wrongway.Receive.{
  resolve_incident_if_needed, resolve_with, entry_is_ended, deactivate_missing_tracks, open_in_zone,
  item_is_wrong_way, transaction, touch_device, process_from, lidar_pc, process_snapshot,
}
use lidar_dashboard.Wrongway.Incidents.{Inv, Inv-same, update_by-Descending}
use lidar_dashboard.Wrongway.OpenIncident.{
  Holds, IsActive, process_object-Holds, process_object-IsActive, process_object_calm,
}

module _ (s : Snapshot) (d : Device) where
  process_objects-Holds :
      (as' : List Accepted) (o : Option Incident) (db : Db)
      → Holds d o db
      → Holds d (process_objects s d as' o db).1 (process_objects s d as' o db).2
  unfolding process_objects
  process_objects-Holds [] o db h = h
  process_objects-Holds (a ∷ as') o db h =
      process_objects-Holds as' (process_object s d a o db).0.incident (process_object s d a o db).1
        (process_object-Holds s d a o db h)

  process_objects-IsActive :
      (as' : List Accepted) (o : Option Incident) (db : Db)
      → Holds d o db
      → (any_by item_is_wrong_way (process_objects s d as' o db).0 ≡ true) ⊎ IsActive o
      → IsActive (process_objects s d as' o db).1
  unfolding process_objects any_by
  process_objects-IsActive [] o db h (inl e) = absurd (ground arith)
  process_objects-IsActive [] o db h (inr k) = k
  process_objects-IsActive (a ∷ as') o db h (inr k) =
      process_objects-IsActive as' (process_object s d a o db).0.incident
        (process_object s d a o db).1 (process_object-Holds s d a o db h)
        (inr (process_object-IsActive s d a o db h (inr k)))
  process_objects-IsActive (a ∷ as') o db h (inl e) =
      let (item, db') = process_object s d a o db in
      process_objects-IsActive as' item.incident db' (process_object-Holds s d a o db h)
        (elim (Bool-cases item.is_wrong_way) [
          | inl w ↦ inr (process_object-IsActive s d a o db h (inl w))
          | inr w ↦ inl (rw w at e)
        ])

  process_objects_calm :
      (as' : List Accepted) (o : Option Incident) (db : Db)
      → any_by item_is_wrong_way (process_objects s d as' o db).0 ≡ false
      → ((process_objects s d as' o db).1 ≡ o)
        × ((process_objects s d as' o db).2.incidents ≡ db.incidents)
  unfolding process_objects any_by
  process_objects_calm [] o db e = (refl, refl)
  process_objects_calm (a ∷ as') o db e =
      elim (Bool-cases (process_object s d a o db).0.is_wrong_way) [
        | inl w ↦ absurd (ground arith)
        | inr w ↦
            let (item, db') = process_object s d a o db in
            let here = process_object_calm s d a o db w in
            let later = process_objects_calm as' item.incident db' (rw w at e) in
            (later.0 ∙ here.0, later.1 ∙ here.1)
      ]

-- Resolving an incident closes it and opens none.
closes :
    (zone id : Key) (at : Time) (x : Incident)
    → open_in_zone zone (resolve_with at x) ≡ true
    → open_in_zone zone x ≡ true
closes zone id at x h = absurd (ground arith)

resolve-Inv :
    (s : Snapshot) (o : Option Incident) (b : Bool) (db : Db)
    → Inv db
    → Inv (resolve_incident_if_needed s o b db)
unfolding resolve_incident_if_needed
resolve-Inv s none b db v = v
resolve-Inv s (some i) b db v = elim (Bool-cases (b || not (any_by entry_is_ended s.objects))) [
  | inl e ↦ rw e v
  | inr e ↦ rw e (record {
    one_open = λ zone. omega (
      arith,
      v.one_open zone,
      count_by-update_by_le (open_in_zone zone) (same_incident i.id) (resolve_with s.received_at)
          db.incidents (closes zone i.id s.received_at),
    );
    fresh =
        update_by-Descending (same_incident i.id) (resolve_with s.received_at) db.incidents
          db.next_id (λ x. refl) v.fresh;
  })
]

still_none :
    (zone id : Key) (at : Time) (is : List Incident)
    → count_by (open_in_zone zone) is ≡ 0
    → find_by (open_in_zone zone) (update_by (same_incident id) (resolve_with at) is) ≡ none
still_none zone id at is h =
    find_by-zero (open_in_zone zone) (update_by (same_incident id) (resolve_with at) is) (
      omega (
        arith,
        count_by-update_by_le (open_in_zone zone) (same_incident id) (resolve_with at) is
            (closes zone id at),
      ))

-- With one open incident in the zone, resolving it leaves none.
none_open :
    (zone : Key) (at : Time) (is : List Incident) (i : Incident)
    → find_by (open_in_zone zone) is ≡ some i
    → count_by (open_in_zone zone) is ≤ 1
    → find_by (open_in_zone zone) (update_by (same_incident i.id) (resolve_with at) is) ≡ none
unfolding find_by count_by update_by
none_open zone at [] i h k = refl
none_open zone at (x ∷ is) i h k = elim (Bool-cases (open_in_zone zone x)) [
  | inl e ↦
      let same : x.id ≡ i.id = ground arith in
      let rest : count_by (open_in_zone zone) is ≡ 0 = ground arith in
      ground (arith, still_none zone i.id at is rest)
  | inr e ↦
      let rest : find_by (open_in_zone zone) is ≡ some i = ground arith in
      ground (arith, none_open zone at is i rest)
]

-- What a snapshot does to the open incident of its zone: a wrong-way object makes it active,
-- whatever else is there; without one, an ended object leaves none open; otherwise nothing changes.
abbrev pub AfterSnapshot : (wrong_way ended : Bool) (before after : Option Incident) → Type 0
AfterSnapshot true ended before after = IsActive after
AfterSnapshot false true before after = after ≡ none
AfterSnapshot false false before after = after ≡ before

resolve-After :
    (s : Snapshot) (d : Device) (o : Option Incident) (db : Db)
    → Holds d o db
    → AfterSnapshot false
        (any_by entry_is_ended s.objects)
        o
        (find_by (open_in_zone d.zone_id) (resolve_incident_if_needed s o false db).incidents)
unfolding resolve_incident_if_needed
resolve-After s d none db h = elim (Bool-cases (any_by entry_is_ended s.objects)) [
  | inl e ↦ rw e h.found
  | inr e ↦ rw e h.found
]
resolve-After s d (some i) db h = elim (Bool-cases (any_by entry_is_ended s.objects)) [
  | inl e ↦
      rw e (none_open d.zone_id s.received_at db.incidents i h.found (h.inv.one_open d.zone_id))
  | inr e ↦ rw e h.found
]

resolve_wrong :
    (s : Snapshot) (o : Option Incident) (db : Db) → resolve_incident_if_needed s o true db ≡ db
unfolding resolve_incident_if_needed
resolve_wrong s none db = refl
resolve_wrong s (some i) db = refl

module _ (s : Snapshot) (d : Device) (as' : List Accepted) (db : Db) (v : Inv db) where
  abbrev before : Option Incident
  before = find_by (open_in_zone d.zone_id) db.incidents

  abbrev objects_run : List Item × Option Incident × Db
  objects_run = process_objects s d as' before db

  start-Holds : Holds d before db
  start-Holds = record { inv = v; found = refl }

  loop-Holds : Holds d objects_run.1 objects_run.2
  loop-Holds = process_objects-Holds s d as' before db start-Holds

  deactivate-incidents :
      (db' : Db) → (deactivate_missing_tracks s d as' db').1.incidents ≡ db'.incidents
  unfolding deactivate_missing_tracks
  deactivate-incidents db' = refl

  transaction-Inv : Inv (transaction s d as' db).2
  unfolding transaction deactivate_missing_tracks
  transaction-Inv =
      let w = any_by item_is_wrong_way objects_run.0 in
      let r = resolve-Inv s objects_run.1 w objects_run.2 loop-Holds.inv in
      Inv-same (resolve_incident_if_needed s objects_run.1 w objects_run.2) _ refl (omega arith) r

  -- A transaction does to the open incident of the device's zone what its objects call for, where
  -- at most one incident of each zone is open before.
  pub transaction-AfterSnapshot :
      AfterSnapshot
        (any_by item_is_wrong_way (transaction s d as' db).0)
        (any_by entry_is_ended s.objects)
        (find_by (open_in_zone d.zone_id) db.incidents)
        (find_by (open_in_zone d.zone_id) (transaction s d as' db).2.incidents)
  unfolding transaction deactivate_missing_tracks
  transaction-AfterSnapshot = elim (Bool-cases (any_by item_is_wrong_way objects_run.0)) [
    | inl e ↦
        let (i, same, is_active) = process_objects-IsActive s d as' before db start-Holds (inl e) in
        rw (e, resolve_wrong s objects_run.1 objects_run.2, loop-Holds.found) (i, same, is_active)
    | inr e ↦
        let (kept, _) = process_objects_calm s d as' before db e in
        rw e (
          subst
            (λ o. AfterSnapshot false (any_by entry_is_ended s.objects) o (
              find_by (open_in_zone d.zone_id)
                (resolve_incident_if_needed s objects_run.1 false objects_run.2).incidents))
            kept (resolve-After s d objects_run.1 objects_run.2 loop-Holds))
  ]

-- Every snapshot keeps the invariant: no zone comes to have two open incidents, whatever the
-- snapshot, its device and the errors in it.
pub process_snapshot-Inv : (db : Db) (s : Snapshot) → Inv db → Inv (process_snapshot db s).0
unfolding process_snapshot process_from touch_device
process_snapshot-Inv db s v = elim (Option-cases (validate_snapshot s)) [
  | inr (e, h) ↦ rw (h, process_snapshot) v
  | inl h ↦ elim (Option-cases (lidar_pc (find_source_device s.source_device_code db))) [
    | inl k ↦ rw (h, k, process_snapshot) v
    | inr (d, k) ↦ rw (h, k, process_snapshot) (received-Inv d)
  ]
]
  where
    received-Inv : (d : Device) → Inv (process_from s d (touch_device s d db)).0
    received-Inv d =
        let touched_db = touch_device s d db in
        let same : Inv touched_db = record { one_open = v.one_open; fresh = v.fresh } in
        elim (Bool-cases (nothing_accepted s)) [
          | inl e ↦ rw e same
          | inr e ↦ rw e (transaction-Inv s d (split_objects s.objects).0 touched_db same)
        ]
