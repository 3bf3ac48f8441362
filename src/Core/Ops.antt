-- ===== src/Core/Ops.antt =====
-- crates/core/src/ops.rs: pulling and pushing whole trees.
pub mod Local
pub mod Stats
pub mod Pull
pub mod Push
pub mod Ends
pub mod Inside
pub mod Outside
pub mod Confined
pub mod Truthful
pub mod Joining
pub mod Staged
