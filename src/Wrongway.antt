-- ===== src/Wrongway.antt =====
-- The reception of lidar snapshots: dashboard/server/src/domains/wrongway.
pub mod Model
pub mod Validate
pub mod Rows
pub mod Process
pub mod Receive
pub mod Tracks
pub mod Incidents
pub mod OpenIncident
pub mod Situation
pub mod Replay
pub mod Repetition
pub mod Statistics
pub mod Accounting
mod Actions
mod Deactivation
pub mod Summary
pub mod Answers
pub mod Responses
pub mod EventStatus
pub mod AuditTrail
mod Receipts
pub mod SnapshotLog
mod Tests
