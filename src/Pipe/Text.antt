-- ===== src/Pipe/Text.antt =====
-- The textual form of a pipe (pipe/textual.go).
pub mod Split
pub mod Token
pub mod Config
pub mod Stages
pub mod Reshape
pub mod Parse
