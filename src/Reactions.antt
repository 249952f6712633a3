-- ===== src/Reactions.antt =====
-- src/modules/reaction: the reactions of users to news articles, and the articles' counters.
pub mod Database
pub mod Service
pub mod Counters
pub mod Changes
pub mod Toggle
pub mod Race
mod Tests
