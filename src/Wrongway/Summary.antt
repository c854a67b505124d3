-- ===== src/Wrongway/Summary.antt =====
-- The numbers of a response, against its lines and the tables.
use lidar_dashboard.Prelude.{◌+◌, ◌≡◌, List, ◌++◌, length, some}
use lidar_dashboard.Prelude.Tables.{All, count_by}
use lidar_dashboard.Wrongway.Model.{
  track_created, track_updated, rejected, Device, Db, Snapshot, Result, Response,
}
use lidar_dashboard.Wrongway.Validate.{split_objects, find_source_device}
use lidar_dashboard.Wrongway.Deactivation.{IsCurrent}
use lidar_dashboard.Wrongway.Process.{Item}
use lidar_dashboard.Wrongway.Receive.{
  sort_results, item_results, lidar_pc, is_missing, snapshot_time, has_action,
}

-- What the numbers of a response say of its lines and of the database before and after.
pub record Accounts (before after : Db) (s : Snapshot) (r : Response) : Type 0 where
  pub received_once : r.summary.received ≡ r.summary.accepted + r.summary.rejected
  pub a_line_each : length r.results ≡ r.summary.received
  pub one_way :
      r.summary.tracks_created + r.summary.tracks_updated + r.summary.stale_objects
      ≡ r.summary.accepted
  pub new_tracks : length after.tracks ≡ length before.tracks + r.summary.tracks_created
  pub new_events : length after.events ≡ length before.events + r.summary.events_stored
  pub by_action :
      r.summary.events_stored
        + r.summary.duplicates
        + r.summary.stale_objects
        + count_by (has_action track_created) r.results
        + count_by (has_action track_updated) r.results
        + r.summary.rejected
      ≡ r.summary.received
  pub deactivated :
      (d : Device) × (lidar_pc (find_source_device s.source_device_code before) ≡ some d)
      × (r.summary.tracks_deactivated
          ≡ count_by (is_missing d (snapshot_time s) (split_objects s.objects).0) before.tracks)
      × All (IsCurrent d (snapshot_time s) (split_objects s.objects).0) after.tracks

module _ (items : List Item) (refused : List Result) where
  abbrev lines : List Result
  lines = sort_results (item_results items ++ refused)
