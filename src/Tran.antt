-- ===== src/Tran.antt =====
-- tran/src/main/java/com/toy/tran/data/extract: the reader of the lines of a file.
pub mod LineInput
mod Tests
