-- ===== src/Analytics.antt =====
-- The portfolio-intelligence engines (src/modules/portfolio-intelligence/engines).
pub mod BpsMath
