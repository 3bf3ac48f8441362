-- ===== src/Core.antt =====
-- crates/core: errors, names, paths, the metadata cache and the device actor.
pub mod Error
pub mod Names
pub mod Model
pub mod Path
pub mod Cache
pub mod Actor
pub mod Ops
