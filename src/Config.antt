-- ===== src/Config.antt =====
-- krennic/internal/config/config.go: the configuration, its defaults and its validation.
pub mod Defs
pub mod Loaded
mod Examples
