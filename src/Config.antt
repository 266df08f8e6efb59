-- ===== src/Config.antt =====
-- The configuration, crates/seance-config.
pub mod Keybindings
pub mod Model
pub mod Validation
pub mod Store
