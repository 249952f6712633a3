-- ===== src/Klines.antt =====
-- src/services/streams/jobs/klineDownsampler.ts: old candles are merged into wider ones.
pub mod Candles
pub mod Buckets
pub mod Downsampler
pub mod Lookup
pub mod Stored
pub mod Bounds
mod Tests
