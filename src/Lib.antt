-- ===== src/Lib.antt =====
-- The Sidekick operator: a Kubernetes controller that keeps one pod, the sidekick, beside a leader
-- pod, and a gRPC service through which that pod reports to its Snapshot.
--
-- How the parts interact. `Reconcile` is given the name of a Sidekick. It frees the sidekick's pod
-- if the pod is being deleted, fetches the Sidekick, sees to its finalizer, computes and writes its
-- phase, chooses its leader, and then keeps, deletes or builds the pod. The service authenticates
-- each request by a token and a grant, each under a key of the Sidekick's Secret, uses up the nonce
-- of the token and then reads or patches the Snapshot that the token names. For a distributed
-- Sidekick `Reconcile` hands over to `ReconcileDistributedSidekick`, which finds the leader in the
-- feedback of the ManifestWorks of all clusters and keeps, deletes or makes a ManifestWork with the
-- pod in the cluster of the leader, its container wired to the service.
--
-- Which file models what:
--   Api             apis/apps/v1alpha1/sidekick_types.go, and the Kubernetes types it uses
--   Phase           pkg/controllers/apps/sidekick.go: `getSidekickPhase` and the backoff counts
--   PhaseUpdate     the same file: `calculateSidekickPhase`, `updateSidekickPhase`
--   PodBuilder      pkg/controllers/apps/pod_builder.go
--   Leader          pkg/controllers/apps/sidekick_controller.go: `getLeader`
--   PodOps          pkg/controllers/apps/pod.go, `terminate`, `handleSidekickFinalizer`
--   Reconcile       pkg/controllers/apps/sidekick_controller.go: `Reconcile` and its helpers, and the
--                   handlers of `SetupWithManager` (Handlers)
--   Token           grpc/token/token.go
--   SnapshotServer  pkg/snapshotserver and grpc/grpc.go
--   GrpcWiring      pkg/controllers/apps/grpc_wiring.go
--   Distributed     pkg/controllers/apps/distributed.go: the phase; in its children the finalizer and
--                   the deletions (Works), the status (Status), the election (Election), the pod and
--                   its ManifestWork (Build), `ReconcileDistributedSidekick` (Reconciler)
--   Cluster         the API server as the reconciler calls it, and the log of what is changed
--   Prelude         shared types, tests, integers, errors, maps and lists
-- A name of the source is spelled in snake case: `getSidekickPhase` is `get_sidekick_phase`.
--
-- How the code is modelled. A call that may fail returns a `Result`, whose errors are NotFound,
-- any other error and a panic (a write to a nil map, a nil pointer that is read, an index out of
-- range). A Go map is an association list or nil. An int32 is its bit pattern, with sums modulo 2
-- ^ 32; a length or a time is an integer without bounds. A function that changes an object
-- through a pointer returns the changed object. The API server is a parameter with one function
-- for each call, which may answer anything and change the world in any way between two calls, so
-- the theorems hold for every interleaving with other clients. The clock, the sort of the
-- standard library, the cryptography and the third-party helpers are parameters too; what is
-- relied on of them are the fields of `Sorts` and `CryptoLaws`, and of the calls, where it
-- matters that they answer or do not panic, those of `IsServing`, `IsHub`, `IsWiring` and
-- `Decodes`. Where it matters what the API server keeps, it is a store: `IsStore` (with
-- `AddsFinalizer`) and `IsHubStore` say that a read gives what was written and that a write
-- changes one object only. Every theorem that needs such a record names it. What many rounds do
-- is a step relation: `History` and `Rounds` have rounds and the changes of others in any order, and
-- `Served` the requests to the service.
-- Loops are recursions on lists, so no fuel is used.
--
-- What is not modelled: logging, the set-up of the manager and of the listener, the registration of
-- the watches, the command line, generated code and the random source: what it gives is an
-- argument or a call. Whether the service was exported before (`grpcOnce`) is an argument. Errors
-- keep only the constant part of their text.
pub mod Prelude
pub mod Api
pub mod Phase
pub mod Cluster
pub mod PodBuilder
pub mod PhaseUpdate
pub mod Leader
pub mod PodOps
pub mod Reconcile
pub mod Distributed
pub mod GrpcWiring
pub mod Token
pub mod SnapshotServer
mod Tests
