-- ===== src/Ta.antt =====
-- bot/src/bot/ta: technical analysis over candles.
pub mod Config
pub mod State
pub mod Helpers
pub mod Macd
pub mod Patterns
pub mod Scoring
pub mod Similarity
