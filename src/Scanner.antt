-- ===== src/Scanner.antt =====
-- bot/src/bot/scanner: which symbols are candidates today, and which of them are active.
pub mod Config
pub mod State
pub mod Filters
pub mod Calendar
pub mod Window
pub mod Fundamentals
pub mod Leaders
pub mod Candidates
pub mod Active
pub mod Scan
