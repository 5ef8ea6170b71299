-- ===== src/Parser.antt =====
-- The package parser: what is accepted as a query, and how it is normalised.
pub mod Validate
pub mod Shape
pub mod Normalize
pub mod Accepted
