-- ===== src/Dsl.antt =====
-- dsl/types.go: the document types.
pub mod Where
pub mod Tree
pub mod Query
pub mod Filters
