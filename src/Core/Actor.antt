-- ===== src/Core/Actor.antt =====
-- crates/core/src/actor.rs: the task that owns the MTP session.
pub mod Device
pub mod Monad
pub mod State
pub mod Lookup
pub mod Tree
pub mod Transfer
pub mod Handle
pub mod Dispatch
pub mod Connect
pub mod Coherence
