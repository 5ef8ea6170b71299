-- ===== src/Pipe.antt =====
-- The pipe of pipe/: its operators, planner and executor.
pub mod Where
pub mod Operator
pub mod Execute
pub mod Graph
pub mod Moves
pub mod Plan
pub mod Order
pub mod Rows
pub mod Window
pub mod Branching
pub mod Columns
pub mod Grouping
pub mod Lookup
pub mod Detailed
pub mod Text
pub mod Reshape
pub mod Quality
