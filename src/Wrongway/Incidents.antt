-- ===== src/Wrongway/Incidents.antt =====
-- The safety incidents of a zone under `processSnapshot`: at most one is open, and what a
-- snapshot does to it.
use lidar_dashboard.Prelude.{
  ◌≤◌, ◌<◌, ◌≡◌, refl, ap, inl, inr, Bool, true, Option, none, some, List, [], ◌∷◌, arith, ◌==◌,
  ==_iff, Bool-cases,
}
use lidar_dashboard.Prelude.Tables.{
  find_by, update_by, count_by, All, count_by-none, count_by-update_by,
}
use lidar_dashboard.Wrongway.Model.{Key, active, Device, Incident, Db}
use lidar_dashboard.Wrongway.Rows.{
  same_incident, new_incident, reactivated_incident, is_active_status, ensure_active_incident,
}
use lidar_dashboard.Wrongway.Receive.{open_in_zone}

-- Row ids fall along the list and stay under the next one, so no two rows share an id.
abbrev pub Descending : Key → List Incident → Type 0
Descending n [] = Unit {0}
Descending n (i ∷ is) = (i.id < n) × Descending i.id is

-- At most one incident of a zone is open.
pub record Inv (db : Db) : Type 0 where
  pub one_open : (zone : Key) → count_by (open_in_zone zone) db.incidents ≤ 1
  pub fresh : Descending db.next_id db.incidents

Descending-mono : {m n : Key} (is : List Incident) → m ≤ n → Descending m is → Descending n is
Descending-mono [] h k = tt
Descending-mono (i ∷ is) h k = (omega arith, k.1)

found-lt :
    (p : Incident → Bool) (is : List Incident) (n : Key) (i : Incident)
    → Descending n is
    → find_by p is ≡ some i
    → i.id < n
unfolding find_by
found-lt p [] n i h k = absurd (ground arith)
found-lt p (x ∷ is) n i h k = ground (arith, found-lt p is x.id i h.1)

-- An update that keeps ids keeps their order.
pub update_by-Descending :
    (q : Incident → Bool) (f : Incident → Incident) (is : List Incident) (n : Key)
    → ((i : Incident) → (f i).id ≡ i.id)
    → Descending n is
    → Descending n (update_by q f is)
unfolding update_by
update_by-Descending q f [] n same h = tt
update_by-Descending q f (i ∷ is) n same h = elim (Bool-cases (q i)) [
  | inl e ↦ rw (e, same i) (h.0, update_by-Descending q f is i.id same h.1)
  | inr e ↦ rw e (h.0, update_by-Descending q f is i.id same h.1)
]

find-reactivated :
    (zone : Key) (is : List Incident) (n : Key) (i : Incident)
    → Descending n is
    → find_by (open_in_zone zone) is ≡ some i
    → find_by (open_in_zone zone) (update_by (same_incident i.id) reactivated_incident is)
      ≡ some (reactivated_incident i)
unfolding find_by update_by
find-reactivated zone [] n i h k = absurd (ground arith)
find-reactivated zone (x ∷ is) n i h k =
    ground (arith, found-lt (open_in_zone zone) is x.id i h.1, find-reactivated zone is x.id i h.1)

abbrev StaysOpen : Key → Key → Incident → Type 0
StaysOpen id zone x =
    same_incident id x ≡ true → open_in_zone zone (reactivated_incident x) ≡ open_in_zone zone x

low-StaysOpen : (zone id : Key) (is : List Incident) → Descending id is → All (StaysOpen id zone) is
low-StaysOpen zone id [] h = tt
low-StaysOpen zone id (x ∷ is) h =
    (λ e. absurd (ground arith), low-StaysOpen zone id is (Descending-mono is (omega arith) h.1))

found-StaysOpen :
    (zone other : Key) (is : List Incident) (n : Key) (i : Incident)
    → Descending n is
    → find_by (open_in_zone zone) is ≡ some i
    → All (StaysOpen i.id other) is
unfolding find_by
found-StaysOpen zone other [] n i h k = tt
found-StaysOpen zone other (x ∷ is) n i h k = elim (Bool-cases (open_in_zone zone x)) [
  | inl e ↦
      let same : x ≡ i = ground arith in
      (
        λ _. ground arith,
        low-StaysOpen other i.id is (rw (ap (λ (y : Incident). y.id) same) at h.1),
      )
  | inr e ↦
      let rest : find_by (open_in_zone zone) is ≡ some i = ground arith in
      (
        λ e'. absurd (
            omega
              (arith, found-lt (open_in_zone zone) is x.id i h.1 rest, (==_iff x.id i.id).0 e')),
        found-StaysOpen zone other is x.id i h.1 rest,
      )
]

-- A database whose incidents are the same, and whose next row id is no lower, keeps the invariant.
pub Inv-same :
    (db db' : Db) → db'.incidents ≡ db.incidents → db.next_id ≤ db'.next_id → Inv db → Inv db'
Inv-same db db' e h v = record {
  one_open = λ zone. rw e (v.one_open zone);
  fresh = rw e (Descending-mono db.incidents h v.fresh);
}

-- What `ensureActiveIncident` leaves: an active incident, which is the zone's open one.
pub record Ensured (d : Device) (i : Incident) (db : Db) : Type 0 where
  pub inv : Inv db
  pub found : find_by (open_in_zone d.zone_id) db.incidents ≡ some i
  pub is_active : i.status ≡ active

count-new :
    (d : Device) (id zone : Key) (is : List Incident)
    → find_by (open_in_zone d.zone_id) is ≡ none
    → count_by (open_in_zone zone) is ≤ 1
    → count_by (open_in_zone zone) (new_incident d id ∷ is) ≤ 1
unfolding count_by
count-new d id zone is h k = elim (Bool-cases (d.zone_id == zone)) [
  | inl e ↦
      let same : zone ≡ d.zone_id = ground arith in
      let zero_here = count_by-none (open_in_zone d.zone_id) is h in
      rw same (ground (arith, zero_here))
  | inr e ↦ ground arith
]

ensure-new :
    (d : Device) (db : Db)
    → Inv db
    → find_by (open_in_zone d.zone_id) db.incidents ≡ none
    → Ensured d (ensure_active_incident d none db).0 (ensure_active_incident d none db).1
unfolding ensure_active_incident find_by
ensure-new d db v h = record {
  inv = record {
    one_open = λ zone. count-new d db.next_id zone db.incidents h (v.one_open zone);
    fresh = (omega arith, v.fresh);
  };
  found = ground arith;
  is_active = refl;
}

pub ensure-Ensured :
    (d : Device) (o : Option Incident) (db : Db)
    → Inv db
    → find_by (open_in_zone d.zone_id) db.incidents ≡ o
    → Ensured d (ensure_active_incident d o db).0 (ensure_active_incident d o db).1
unfolding ensure_active_incident
ensure-Ensured d none db v h = ensure-new d db v h
ensure-Ensured d (some i) db v h = elim (Bool-cases (is_active_status i.status)) [
  | inl e ↦ rw e (record { inv = v; found = h; is_active = ground arith })
  | inr e ↦ rw e (record {
    inv = record {
      one_open = λ zone.
          rw
            (count_by-update_by (open_in_zone zone) (same_incident i.id) reactivated_incident
              db.incidents (found-StaysOpen d.zone_id zone db.incidents db.next_id i v.fresh h))
            (v.one_open zone);
      fresh =
          update_by-Descending (same_incident i.id) reactivated_incident db.incidents db.next_id
            (λ x. refl) v.fresh;
    };
    found = find-reactivated d.zone_id db.incidents db.next_id i v.fresh h;
    is_active = refl;
  })
]
