-- ===== src/Tests.antt =====
-- Tests of the model on concrete inputs, and the theorems at concrete inputs.
mod Cipher
mod Fixtures
mod Sorting
mod Controller
mod Pods
mod Server
mod Wiring
mod Clusters
mod Hub
mod Store
mod Rounds
mod Spent
mod Works
