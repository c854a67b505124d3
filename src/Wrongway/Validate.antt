-- ===== src/Wrongway/Validate.antt =====
-- The checks of `validateSnapshot` and `validateObjects`, and `findSourceDevice`, of
-- dashboard/server/src/domains/wrongway/wrongway.service.js.
use lidar_dashboard.Prelude.{
  ℕ, ◌+◌, ◌*◌, ◌/◌, Bool, true, false, not, ◌&&◌, Option, none, some, List, [], ◌∷◌, leb, ◌==◌,
  if◌then◌else◌,
}
use lidar_dashboard.Prelude.Tables.{find_by}
use lidar_dashboard.Wrongway.Model.{
  Key, Time, is_supported, rejected, Device, Db, Event, Entry, Snapshot, Error, bad_timestamp,
  source_required, objects_required, ObjectError, track_id_required, zone_id_required,
  unsupported_type, Result,
}

abbrev pub is_some {ℓ} : {A : Type ℓ} → Option A → Bool
is_some none = false
is_some (some a) = true

-- `a ?? b` and `a || b` where the value cannot be falsy otherwise.
abbrev pub or_else {ℓ} : {A : Type ℓ} → Option A → A → A
or_else none b = b
or_else (some a) b = a

-- Prisma leaves a column alone whose new value is `undefined`.
abbrev pub or_keep {ℓ} : {A : Type ℓ} → Option A → Option A → Option A
or_keep none old = old
or_keep (some a) old = some a

-- `VEHICLE_OBJECT_CLASSES.has(objectClass)`.
abbrev pub is_vehicle : Option ℕ → Bool
is_vehicle none = false
is_vehicle (some c) = leb 1 c && leb c 6

abbrev pub track_inactive_timeout_ms : ℕ
track_inactive_timeout_ms = 3000

-- The midnight of the Korean day: `toKstStatDate`, with the day's number for its `Date.UTC`.
abbrev pub kst_stat_date : Time → ℕ
kst_stat_date t = (t + 9 * 60 * 60 * 1000) / 86400000

unfoldable pub validate_snapshot : Snapshot → Option Error
validate_snapshot s =
    if not (is_some s.timestamp)
    then some bad_timestamp
    else if not (is_some s.source_device_code)
    then some source_required
    else if not s.has_objects_array && not s.is_legacy_single_object
    then some objects_required
    else none

-- An entry whose track and zone are given and whose type is supported.
pub record Accepted : Type 0 where
  pub entry : Entry
  pub track_id : Key
  pub external_zone_id : Key

abbrev object_error : Bool → ObjectError → List ObjectError → List ObjectError
object_error true e rest = e ∷ rest
object_error false e rest = rest

unfoldable pub object_errors : Event → List ObjectError
object_errors e = object_error (not (is_some e.track_id)) track_id_required (
    object_error (not (is_some e.external_zone_id)) zone_id_required
      (object_error (not (is_supported e.original_type)) unsupported_type []))

unfoldable pub rejected_result : Entry → Result
rejected_result entry = record {
  index = entry.index;
  track_id = entry.event.track_id;
  type = entry.event.external_type;
  action = rejected;
  track_action = none;
  event_id = none;
  incident_id = none;
  errors = object_errors entry.event;
}

abbrev pub when_supported : Entry → Key → Key → Bool → Option Accepted
when_supported entry t z true = some (record { entry = entry; track_id = t; external_zone_id = z })
when_supported entry t z false = none

abbrev pub when_given : Entry → Option Key → Option Key → Option Accepted
when_given entry (some t) (some z) =
    when_supported entry t z (is_supported entry.event.original_type)
when_given entry _ _ = none

unfoldable pub accept : Entry → Option Accepted
accept entry = when_given entry entry.event.track_id entry.event.external_zone_id

-- The loop of `validateObjects`: the accepted entries and the lines of the rejected ones.
unfoldable pub split_objects : List Entry → List Accepted × List Result
split_objects [] = ([], [])
split_objects (entry ∷ entries) =
    let (accepted, refused) = split_objects entries in
    elim (accept entry) [
      | none ↦ (accepted, rejected_result entry ∷ refused)
      | some a ↦ (a ∷ accepted, refused)
    ]

abbrev is_empty {ℓ} : {A : Type ℓ} → List A → Bool
is_empty [] = true
is_empty (x ∷ xs) = false

-- All objects refused, and there was at least one: the request ends with 400.
unfoldable pub nothing_accepted : Snapshot → Bool
nothing_accepted s = not (is_empty s.objects) && is_empty (split_objects s.objects).0

abbrev pub by_code : Key → Device → Bool
by_code code d = d.device_code == code

unfoldable pub find_source_device : Option Key → Db → Option Device
find_source_device none db = none
find_source_device (some code) db = find_by (by_code code) db.devices
