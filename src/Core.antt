-- ===== src/Core.antt =====
-- core/src/main/java/com/toy/conf: the configuration.
pub mod Config
mod Tests
