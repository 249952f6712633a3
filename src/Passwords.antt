-- ===== src/Passwords.antt =====
-- packages/nayft-password-policy: which passwords are good enough.
pub mod Rules
pub mod Evaluation
pub mod Texts
pub mod Acceptable
mod Tests
