-- ===== src/Features.antt =====
-- src/core/feature-system: the registry of features, who a feature is enabled for, and its updates.
pub mod Registry
pub mod Service
pub mod Rollout
pub mod Updates
mod Tests
