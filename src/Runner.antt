-- ===== src/Runner.antt =====
-- bot/run.py: the settings that the loops hand to the scanner and to the session, and the migration of
-- the installer's config.json.
pub mod Config
pub mod Migration
