-- ===== src/Codes.antt =====
-- The codes that are sent by email: the password reset of
-- dashboard/server/src/domains/auth/auth.service.js and the proof of an email of
-- domains/signup-requests/signupRequests.service.js.
pub mod Model
pub mod Calls
pub mod Clients
pub mod Run
pub mod Potential
mod Counting
mod Limits
mod Resets
mod Guarded
mod Guesses
mod Honest
mod Tokens
mod Tests
