-- ===== src/Processor.antt =====
-- The package processor: what is done in memory to the rows that SQL returned.
pub mod Where
pub mod Aggregate
pub mod Steps
pub mod Process
pub mod Sizes
pub mod Pages
