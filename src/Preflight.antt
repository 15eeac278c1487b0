-- ===== src/Preflight.antt =====
-- tools/preflight: the preflight checks and the cleanup of what they create.
pub mod Options
pub mod Specs
pub mod Delete
pub mod Cleanup
pub mod HelmVersion
pub mod Wait
pub mod Checks
pub mod Suffix
pub mod SnapshotClasses
pub mod Crds
pub mod Pods
pub mod Volumes
pub mod Run
