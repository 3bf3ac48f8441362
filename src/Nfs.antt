-- ===== src/Nfs.antt =====
-- The models of crates/nfs-mount.
pub mod Ids
pub mod Status
pub mod State
pub mod Staging
pub mod Files
pub mod Names
pub mod Listing
pub mod Paging
pub mod Flushing
pub mod Writes
pub mod Renames
pub mod Session
pub mod Mount
