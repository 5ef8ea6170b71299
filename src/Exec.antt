-- ===== src/Exec.antt =====
-- The package exec: the engine that runs a query end to end.
pub mod Scan
pub mod Config
pub mod Classic
pub mod Cursor
pub mod Drained
pub mod Stream
pub mod Complete
pub mod Dispatch
pub mod Bounds
pub mod Trace
pub mod Paged
pub mod Clipped
pub mod Enriched
pub mod Ignored
