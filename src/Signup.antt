-- ===== src/Signup.antt =====
-- Signup requests: dashboard/server/src/domains/signup-requests/signupRequests.service.js.
pub mod Maintenance
pub mod Requests
pub mod Review
pub mod Actions
pub mod Life
mod Refines
mod Final
mod Kept
mod Balance
mod Approvals
pub mod Listing
mod Newest
mod Pages
mod Tests
