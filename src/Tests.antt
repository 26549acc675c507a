-- ===== src/Tests.antt =====
-- Examples on fixed-point numbers, and a session against the fake client.
mod Fixtures
mod Ta
mod Breaker
mod Sizing
mod Exits
mod Gate
mod Session
mod Learning
mod License
mod Scanner
mod News
mod Control
mod Relay
mod Runner
mod Installer
