-- ===== src/Example.antt =====
-- The second tree of pages, monitorView/src/main/resources/static/example: its scripts under
-- assets/js, read at the level of elements, bindings, queued animations and random draws.
pub mod Document
pub mod Rows
pub mod Theme
pub mod Plain
pub mod Charts
pub mod Samples
pub mod Gauges
pub mod Agreement
pub mod Refinement
mod Tests
