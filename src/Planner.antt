-- ===== src/Planner.antt =====
-- The package planner: what of a query is pushed to SQL.
pub mod Where
pub mod Select
pub mod Joins
pub mod Plan
pub mod Paging
pub mod Pushdown
