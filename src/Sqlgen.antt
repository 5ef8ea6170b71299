-- ===== src/Sqlgen.antt =====
-- The package sqlgen: a parameterised PostgreSQL query from a plan.
pub mod Emit
pub mod Ident
pub mod Condition
pub mod Generate
pub mod Numbering
pub mod Placeholders
pub mod Bound
pub mod Operands
pub mod Joining
pub mod Tenancy
pub mod Limits
