-- ===== src/Accounts.antt =====
-- Accounts: what credentials are accepted, the management of users and the codes sent by email,
-- of dashboard/server/src (utils/credential-policy.js, domains/users, domains/auth,
-- domains/signup-requests).
pub mod Policy
mod Credentials
mod Digits
mod Phones
pub mod Reply
pub mod Model
pub mod Fields
pub mod Users
pub mod Updates
pub mod Passwords
pub mod Routes
mod Checks
pub mod Outcome
mod Refines
mod Rows
mod Governed
mod Moves
mod Ended
mod Rule
mod Logged
mod Tests
