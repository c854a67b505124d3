-- ===== src/Auth.antt =====
-- Sessions: dashboard/server/src/domains/auth and middlewares/auth.middleware.js.
pub mod Model
pub mod Sessions
pub mod RefreshTokens
pub mod LoggedOut
pub mod SessionEnd
pub mod ClaimedUser
pub mod Refresh
pub mod Tickets
pub mod TicketUse
pub mod TicketOnce
pub mod Samples
mod Tests
