-- ===== src/Expand.antt =====
-- The package expand: what the ids in a result stand for.
pub mod Expander
pub mod Direct
