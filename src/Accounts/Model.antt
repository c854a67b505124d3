-- ===== src/Accounts/Model.antt =====
-- The data of dashboard/server/src/domains/users/users.service.js: the database with the audit log
-- of the users, and what is said of a user. `createdAt` and `updatedAt` are left out.
use lidar_dashboard.Prelude.{Bool, Option, List, [], ◌∷◌, ◌++◌}
use lidar_dashboard.Prelude.Text.{Text, to_lower}
use lidar_dashboard.Auth.Model.{Key, Time, User, Tables}

pub data UserAction : Type 0 where
  user_created user_updated user_deactivated user_password_changed user_password_reset
        user_password_reset_via_email :
      UserAction

pub record UserSnapshot : Type 0 where
  pub user_id : Text
  pub name : Text
  pub role : Text
  pub is_active : Bool

-- `afterData` of a log: the user, or that the sessions ended.
pub data AfterData : Type 0 where
  snapshot : UserSnapshot → AfterData
  session_invalidated : AfterData

pub record UserAuditLog : Type 0 where
  pub actor_user_id : Key
  pub target_user_id : Key
  pub action : UserAction
  pub before_data : Option UserSnapshot
  pub after_data : AfterData

pub record Database : Type 0 where
  pub tables : Tables
  pub user_audit_logs : List UserAuditLog

pub record UserView : Type 0 where
  pub id : Key
  pub user_id : Text
  pub name : Text
  pub email : Option Text
  pub phone_number : Option Text
  pub role : Text
  pub is_active : Bool
  pub last_login_at : Option Time

abbrev pub serialize_user : User → UserView
serialize_user u = record {
  id = u.id;
  user_id = u.user_id;
  name = u.name;
  email = u.email;
  phone_number = u.phone_number;
  role = to_lower u.role;
  is_active = u.is_active;
  last_login_at = u.last_login_at;
}

abbrev pub create_user_audit_snapshot : User → UserSnapshot
create_user_audit_snapshot u = record {
  user_id = u.user_id;
  name = u.name;
  role = u.role;
  is_active = u.is_active;
}

-- A transaction's last step: the tables that it leaves, and the line of `createUserAuditLog`.
abbrev pub logged : Database → Tables → UserAuditLog → Database
logged db tables log = record { tables = tables; user_audit_logs = db.user_audit_logs ++ log ∷ [] }
