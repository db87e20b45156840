-- ===== src/Cube.antt =====
-- cube/src/main/java/com/toy/cube: the query language, its compiler and its interpreter.
pub mod ParamChange
pub mod Text
pub mod Compile
pub mod Run
mod Tests
