-- ===== src/Server.antt =====
-- Package server: suites, their options and configuration, and the scheduling of them.
pub mod Suite
pub mod Options
pub mod Load
pub mod Config
pub mod Schedule
pub mod Notifiers
pub mod Tests
