-- ===== src/Api.antt =====
-- The objects that the operator reads and writes: its own API types
-- (apis/apps/v1alpha1/sidekick_types.go) and the Kubernetes types that it uses.
-- `R` stands for the values of third-party types that the program only copies or tests for nil.
pub mod Meta
pub mod Pod
pub mod Sidekick
pub mod ManifestWork
pub mod Wiring
pub mod Library
