-- ===== src/Wrongway/Receipts.antt =====
-- The lines of the log that events are received with.
use lidar_dashboard.Prelude.{
  false, ◌<◌, ◌≡◌, refl, Bool, ◌&&◌, Option, List, [], ◌∷◌, ◌++◌, arith, ◌==◌,
}
use lidar_dashboard.Prelude.Tables.{All, count_by, count_by-append}
use lidar_dashboard.Wrongway.Model.{Key, Device, Incident, received, EventLog, TrafficEvent}
use lidar_dashboard.Wrongway.Validate.{Accepted}
use lidar_dashboard.Wrongway.Rows.{traffic_event, received_log}
use lidar_dashboard.Wrongway.Model.{manual}
use lidar_dashboard.Wrongway.AuditTrail.{is_receipt, receipts}

-- The receipt of the next event: the first line about it, and about no event that is there.
receipts-unknown :
    (e : TrafficEvent) (ls : List EventLog) → All (λ l. l.event_id < e.id) ls → receipts ls e ≡ 0
unfolding count_by
receipts-unknown e [] h = refl
receipts-unknown e (l ∷ ls) h =
    let rest = receipts-unknown e ls h.1 in
    let none_here : is_receipt e l ≡ false =
      elim l.metadata
        as (λ m.
          (elim m as (λ x. Bool) [
            | received d z t ↦ l.event_id == e.id && t == e.track_id
            | manual previous next ↦ false
          ])
          ≡ false) [ received d z t ↦ ground (arith, h.0) | manual previous next ↦ refl ] in
    rw none_here (omega (arith, rest))

pub receipts-new :
    (a : Accepted) (d : Device) (v : Key) (i : Option Incident) (id : Key) (ls : List EventLog)
    → All (λ l. l.event_id < id) ls
    → receipts (ls ++ received_log a d id ∷ []) (traffic_event a d v i id) ≡ 1
unfolding count_by
receipts-new a d v i id ls h = ground (
  arith,
  count_by-append (is_receipt (traffic_event a d v i id)) ls (received_log a d id ∷ []),
  receipts-unknown (traffic_event a d v i id) ls h,
)

pub receipts-old :
    (a : Accepted) (d : Device) (id : Key) (ls : List EventLog) (e : TrafficEvent)
    → e.id < id
    → receipts ls e ≡ 1
    → receipts (ls ++ received_log a d id ∷ []) e ≡ 1
unfolding count_by
receipts-old a d id ls e known h =
    ground (arith, known, h, count_by-append (is_receipt e) ls (received_log a d id ∷ []))
