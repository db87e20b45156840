-- ===== src/Dashboard.antt =====
-- The monitor's web pages: the scripts under monitorView/src/main/resources/static/webapp/assets/js
-- that are not copies of libraries. The tree static/example holds the same scripts once more.
pub mod Value
pub mod Page
pub mod Theme
pub mod Plain
pub mod Charts
pub mod Samples
pub mod Gauges
pub mod Scripts
mod Tests
