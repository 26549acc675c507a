-- ===== src/Engine/Session.antt =====
-- bot/src/bot/engine/session.py: one trading day. The actions are in the child modules.
pub mod State
pub mod Exits
pub mod Entries
pub mod Cycle
pub mod Requests
pub mod Positions
