-- ===== src/Examples.antt =====
-- Concrete devices and inputs, at which the theorems are applied and the models run.
pub mod Phone
mod RemoveCases
pub mod CommandCases
mod PathCases
mod CacheCases
mod ActorCases
pub mod TransferCases
mod OpsCases
mod CliCases
mod MountCases
mod NfsCases
mod StagingCases
