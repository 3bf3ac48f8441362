-- ===== src/Cli.antt =====
-- The models of crates/cli.
pub mod Json
pub mod Watch
pub mod Bundle
pub mod Commands
