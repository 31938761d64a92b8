-- ===== src/SnapshotServer.antt =====
-- The snapshot updater: pkg/snapshotserver, and the request of grpc/grpc.go.
pub mod Request
pub mod Replay
pub mod Auth
pub mod History
pub mod Command
