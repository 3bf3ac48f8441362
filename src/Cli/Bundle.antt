-- ===== src/Cli/Bundle.antt =====
-- crates/cli/src/bundle.rs: a directory tree as one archive.
pub mod Disk
pub mod Unpack
pub mod Pack
pub mod Promotion
pub mod Limits
pub mod Totals
