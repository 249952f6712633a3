-- ===== src/Budget.antt =====
-- src/services/alchemyRpcBudget.ts: how many calls of Alchemy a day allows.
pub mod Claims
pub mod Bound
mod Tests
