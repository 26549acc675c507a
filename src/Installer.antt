-- ===== src/Installer.antt =====
-- installer/wizard: the checks of what the user enters, and the configuration that is written.
pub mod Validator
pub mod Writer
