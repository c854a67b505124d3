-- ===== src/Wrongway/Actions.antt =====
-- The actions of the lines of a response.
use lidar_dashboard.Prelude.{
  ◌+◌, ◌≡◌, refl, inl, inr, false, Option, none, some, List, [], ◌∷◌, arith, if◌then◌else◌, length,
  Bool-cases, Option-cases,
}
use lidar_dashboard.Prelude.Tables.{count_by, find_by}
use lidar_dashboard.Wrongway.Model.{
  Key, Reason, track_created, track_updated, duplicated_state, event_stored, stale_object_skipped,
  rejected, Device, Track, Incident, TrafficEvent, Db, Entry, Snapshot, Result,
}
use lidar_dashboard.Wrongway.Validate.{Accepted, accept, rejected_result, split_objects}
use lidar_dashboard.Wrongway.Process.{
  record_change, saved_id, count_first_sight, save_track, take_incident, state_changed, is_stale,
  object_time, object_result, needs_event, finish_object, process_seen, process_object,
  process_objects,
}
use lidar_dashboard.Wrongway.Receive.{open_in_zone, transaction, item_results, has_action}
use lidar_dashboard.Wrongway.Tracks.{track_at, process_object-stale, process_object-fresh}
use lidar_dashboard.Wrongway.Accounting.{split_objects-some, split_objects-none}

-- Each line has one action.
one_action :
    (r : Result)
    → (if has_action event_stored r then 1 else 0)
        + (if has_action duplicated_state r then 1 else 0)
        + (if has_action stale_object_skipped r then 1 else 0)
        + (if has_action track_created r then 1 else 0)
        + (if has_action track_updated r then 1 else 0)
        + (if has_action rejected r then 1 else 0)
      ≡ 1
one_action r = by r.action
  where
    by :
        (a : Reason)
        → (if has_action event_stored (record r { action = a }) then 1 else 0)
            + (if has_action duplicated_state (record r { action = a }) then 1 else 0)
            + (if has_action stale_object_skipped (record r { action = a }) then 1 else 0)
            + (if has_action track_created (record r { action = a }) then 1 else 0)
            + (if has_action track_updated (record r { action = a }) then 1 else 0)
            + (if has_action rejected (record r { action = a }) then 1 else 0)
          ≡ 1
    by track_created = refl
    by track_updated = refl
    by duplicated_state = refl
    by event_stored = refl
    by stale_object_skipped = refl
    by rejected = refl

pub actions-length :
    (rs : List Result)
    → count_by (has_action event_stored) rs
        + count_by (has_action duplicated_state) rs
        + count_by (has_action stale_object_skipped) rs
        + count_by (has_action track_created) rs
        + count_by (has_action track_updated) rs
        + count_by (has_action rejected) rs
      ≡ length rs
unfolding count_by
actions-length [] = refl
actions-length (r ∷ rs) = omega (arith, one_action r, actions-length rs)

-- All that was refused has the action for it, and nothing that was accepted.
pub refused-count :
    (es : List Entry)
    → count_by (has_action rejected) (split_objects es).1 ≡ length (split_objects es).1
unfolding split_objects count_by rejected_result
refused-count [] = refl
refused-count (e ∷ es) = elim (Option-cases (accept e)) [
  | inl k ↦ rw (split_objects-none e es k) (omega (arith, refused-count es))
  | inr (a, k) ↦ rw (split_objects-some e es a k) (refused-count es)
]

object_result-kept :
    (a : Accepted) (o : Option Track) (i : Option Incident) (e : Option TrafficEvent)
    → has_action rejected (object_result a o i e) ≡ false
object_result-kept a o i (some e) = refl
object_result-kept a none i none = refl
object_result-kept a (some t) i none =
    elim (Bool-cases (state_changed a.entry.event.original_type (some t))) [
      | inl e ↦ rw e refl
      | inr e ↦ rw e refl
    ]

finish_object-kept :
    (s : Snapshot) (d : Device) (a : Accepted) (o : Option Track) (v : Key) (i : Option Incident)
    (db : Db)
    → has_action rejected (finish_object s d a o v i db).0.result ≡ false
unfolding finish_object
finish_object-kept s d a o v i db = elim (Bool-cases (needs_event a.entry.event.original_type o)) [
  | inl k ↦ rw k (object_result-kept a o i (some (record_change s d a v i db).0))
  | inr k ↦ rw k (object_result-kept a o i none)
]

module _ (s : Snapshot) (d : Device) where
  process_object-kept :
      (a : Accepted) (i : Option Incident) (db : Db)
      → has_action rejected (process_object s d a i db).0.result ≡ false
  unfolding process_seen
  process_object-kept a i db =
      let o = track_at d.id a.track_id db in
      let counted = count_first_sight s d a o (save_track d a (object_time s a) db) in
      let taken = take_incident d a.entry.event.original_type i counted in
      elim (Bool-cases (is_stale o (object_time s a))) [
        | inl e ↦ rw (process_object-stale s d a i db e) refl
        | inr e ↦
            rw (process_object-fresh s d a i db e)
              (finish_object-kept s d a o (saved_id o db) taken.0 taken.1)
      ]

  process_objects-kept :
      (as' : List Accepted) (i : Option Incident) (db : Db)
      → count_by (has_action rejected) (item_results (process_objects s d as' i db).0) ≡ 0
  unfolding process_objects count_by
  process_objects-kept [] i db = refl
  process_objects-kept (a ∷ as') i db =
      let (item, db') = process_object s d a i db in
      rw (process_object-kept a i db) (omega (arith, process_objects-kept as' item.incident db'))

  pub transaction-kept :
      (as' : List Accepted) (db : Db)
      → count_by (has_action rejected) (item_results (transaction s d as' db).0) ≡ 0
  unfolding transaction
  transaction-kept as' db =
      process_objects-kept as' (find_by (open_in_zone d.zone_id) db.incidents) db
