-- ===== src/Alpaca.antt =====
-- bot/src/bot/alpaca: the broker. The engine sees the interface alone.
pub mod Client
pub mod Fake
