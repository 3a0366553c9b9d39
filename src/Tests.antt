-- ===== src/Tests.antt =====
-- Runs of the models at concrete inputs, and instances of the theorems.
mod Codec
mod Memory
mod Tool
mod Provision
mod Signature
mod Addresses
mod Deletion
mod Files
mod Workloads
mod Lifecycle
mod Scaffold
