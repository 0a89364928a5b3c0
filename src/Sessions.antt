-- ===== src/Sessions.antt =====
-- The sessions and passwords of backend/src/auth/auth.service.ts.
pub mod Accounts
pub mod Handlers
pub mod Register
pub mod Grants
pub mod Rotation
pub mod Login
mod Tests
