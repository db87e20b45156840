-- ===== src/Example/Refinement.antt =====
-- The scripts of example/assets/js, element by element, do to a page what the reading of
-- webapp/assets/js in Dashboard says: `page_of` is the page that a document shows.
pub mod View
pub mod Handlers
pub mod Steps
pub mod Scripts
pub mod Complete
pub mod Life
