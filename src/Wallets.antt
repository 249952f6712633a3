-- ===== src/Wallets.antt =====
-- src/services/walletEventAggregator.ts and src/utils/eventSummaryBuilder.ts: the events of wallets, from their arrival to the stored ones.
pub mod Summaries
pub mod Transactions
pub mod Aggregator
pub mod Conserving
pub mod Scheduling
pub mod Attribution
pub mod Draining
pub mod Delivery
mod Tests
