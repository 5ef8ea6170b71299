-- ===== src/Go.antt =====
-- The parts of Go that the program computes with: dynamically typed values, rows, and texts.
pub mod Runtime
pub mod Value
pub mod Runes
pub mod Numbers
pub mod Wrap
pub mod Text
pub mod Row
pub mod Coerce
