-- ===== src/Atlasctl.antt =====
-- The command line tool for workloads: tools/atlasctl.
pub mod Config
pub mod Gateway
pub mod Kube
pub mod Disk
pub mod Seed
pub mod Template
pub mod Gitops
pub mod Delete
pub mod Enable
pub mod Disable
pub mod Status
pub mod New
