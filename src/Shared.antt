-- ===== src/Shared.antt =====
-- The package `shared`: data models, Telegram client, configuration, and the clock that the
-- programs read.
pub mod Models
pub mod Clock
pub mod Telegram
pub mod Config
pub mod CommandLine
