-- ===== src/Engine.antt =====
-- bot/src/bot/engine: sizing, circuit breakers, the entry gate, exits and the trading session.
pub mod Config
pub mod Messages
pub mod Sizing
pub mod Breaker
pub mod Exits
pub mod Gate
pub mod Session
