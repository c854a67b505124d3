-- ===== src/Codes/Model.antt =====
-- The tables behind the codes and the signup requests: `EmailVerification`, `SignupRequest` and
-- `EventLog` of dashboard/server/prisma/schema.prisma beside the users. A new row takes the next id, which no
-- other row ever has.
use lidar_dashboard.Prelude.{
  ℕ, Bool, true, false, ◌&&◌, Option, none, some, List, [], ◌∷◌, ltb, if◌then◌else◌,
}
use lidar_dashboard.Prelude.Text.{Text, text_eq}
use lidar_dashboard.Auth.Model.{Key, Time}
use lidar_dashboard.Accounts.Model.{Database}

pub data Purpose : Type 0 where
  signup password_reset : Purpose

pub record EmailVerification : Type 0 where
  pub id : Key
  pub email : Text
  pub purpose : Purpose
  pub code_hash : Text
  pub expires_at : Time
  pub attempts : ℕ
  pub consumed_at : Option Time
  pub created_at : Time

pub data SignupStatus : Type 0 where
  pending approved rejected expired : SignupStatus

pub record SignupRequest : Type 0 where
  pub id : Key
  pub user_id : Option Text
  pub name : Option Text
  pub password_hash : Option Text
  pub email : Option Text
  pub phone_number : Option Text
  pub requested_role : Text
  pub status : SignupStatus
  pub expires_at : Time
  pub reviewed_by_user_id : Option Key
  pub reviewed_at : Option Time
  pub reject_reason : Option Text
  pub anonymized_at : Option Time
  pub created_at : Time
  pub updated_at : Time

pub data EventAction : Type 0 where
  signup_request_approved signup_request_rejected other_action : EventAction

-- The keys of a log's `metadata` that the signup requests use or used.
pub record Metadata : Type 0 where
  pub signup_request_id : Option Key
  pub requested_user_id : Option Text
  pub reject_reason : Option Text

pub record ReviewLog : Type 0 where
  pub user_id : Key
  pub action : EventAction
  pub metadata : Option Metadata
  pub created_at : Time

pub record Server : Type 0 where
  pub database : Database
  pub verifications : List EmailVerification
  pub signup_requests : List SignupRequest
  pub event_logs : List ReviewLog
  pub next_id : Key

abbrev pub same_purpose : Purpose → Purpose → Bool
same_purpose signup signup = true
same_purpose password_reset password_reset = true
same_purpose _ _ = false

abbrev pub sent_to : Text → Purpose → EmailVerification → Bool
sent_to email purpose v = text_eq v.email email && same_purpose v.purpose purpose

abbrev later_of : EmailVerification → Option EmailVerification → EmailVerification
later_of v none = v
later_of v (some w) = if ltb w.created_at v.created_at then v else w

-- `findFirst` with `orderBy: { createdAt: "desc" }`.
unfoldable pub latest_by :
    (EmailVerification → Bool) → List EmailVerification → Option EmailVerification
latest_by p [] = none
latest_by p (v ∷ vs) = let rest = latest_by p vs in if p v then some (later_of v rest) else rest

abbrev pub same_status : SignupStatus → SignupStatus → Bool
same_status pending pending = true
same_status approved approved = true
same_status rejected rejected = true
same_status expired expired = true
same_status _ _ = false

-- Pending and not over.
abbrev pub is_pending : Time → SignupRequest → Bool
is_pending now r = same_status r.status pending && ltb now r.expires_at
