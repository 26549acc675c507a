-- ===== src/Control.antt =====
-- bot/src/bot/control: the settings of the bot, and the methods that the dashboard calls.
pub mod Values
pub mod Database
pub mod Settings
pub mod Update
pub mod Lists
pub mod Notices
pub mod Views
pub mod Days
pub mod Dispatch
pub mod Relay
