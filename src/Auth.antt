-- ===== src/Auth.antt =====
-- src/modules/auth/verification: the codes that users are sent by mail.
pub mod Codes
pub mod Generated
pub mod Backend
pub mod RateLimit
pub mod Service
pub mod Limits
pub mod Issued
pub mod Once
pub mod Lockout
mod Tests
