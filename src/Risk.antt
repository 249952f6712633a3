-- ===== src/Risk.antt =====
-- The risk score builds (src/modules/risk).
pub mod Regime
pub mod Build
