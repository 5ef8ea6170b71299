-- ===== src/Sheet.antt =====
-- The package sheet: named calculations that refer to each other.
pub mod Formula
pub mod Dag
