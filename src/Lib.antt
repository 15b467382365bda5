-- ===== src/Lib.antt =====
-- SandboxFleet places sandboxes on the slots of a fleet of workers.
--
-- The parts and the files that model them (paths from the repository's root):
--   * internal/slot: Slot holds the states of slot.go, Slot/Config the resources and lists of slots of
--     config.go (Kept and Amounts below it hold their proofs), and Slot/Plan its PlanTopology. Below
--     Plan, Ids, Names, Groups, Sums, Dropping, Adding, Step and Loop hold the parts of the proofs, Ends
--     the loop of nextFreeID on an int32, and Topology what a plan promises. Loops are structural; nextFreeID's has maxID + 1 rounds, all that
--     its bound admits.
--   * internal/scheduler: Scheduler. Types holds the structs of types.go, Ops the methods of
--     memoryScheduler (update_worker, remove_worker, assign, restore, release, get), Strategies the
--     strategies of binpack.go, stable.go and random.go. Slots, Candidates, Invariant, Safety, Calls
--     and Recovery hold the proofs, Tests the examples.
--   * internal/worker/manager.go, with the types of internal/workerapi and internal/runtime: Worker.
--     Types holds the requests, errors and interfaces, Slots what a method does to the slot that it
--     locks (start_slot, stop_slot, release_slot and their parts), Manager the methods of SlotManager.
--     WellFormed, Starting, Stopping, Topology, Applying, Invariant, History, Ownership, Success, Lifecycle,
--     Recovery and Listing hold the proofs, Tests the examples. The runtime and the snapshotters are
--     parameters that change a world of any type; a call may fail in any way.
--   * internal/worker/snapshot.go: Worker/Snapshots holds CreateSnapshot on its locked slot,
--     Worker/Restoring RestoreFromSnapshot and the methods of SlotManager, Restored and Saved the
--     proofs, SnapshotTests the examples.
--   * internal/snapshotter/snapshotter.go: Worker/Types holds its interface and registry, Worker/Names its
--     helpers on names and paths.
--   * internal/snapshotstore/store.go and zstd.go: Store. Paths holds normalizeStoragePath, Ops the
--     methods of SnapshotStorage, Keys the lemmas on its keys, Sending, Publishing and Deleting what Upload
--     and Delete leave in the storage, Faithful, Packing and RoundTrip what Download makes of what Upload
--     left, Tests and RoundTripTests the examples. The blob storage, the files and the codecs are
--     parameters; reading a blob to its end and decoding it are one call each.
--   * internal/controller: Controller. Objects holds the types of api/v1alpha1, Clients the interfaces of
--     worker_dependencies.go and snapshot_helpers.go, Sandbox the methods of SandboxReconciler
--     (sandbox_controller.go, sandbox_restore.go) as actions on the world and the scheduler. Keeping,
--     Synced and Finalizing hold the proofs on the finalizer, Cooperative, Started, Placing and Running
--     those on a sandbox that comes to run, Tests the examples. Snapshot holds the creation of a
--     snapshot by SnapshotReconciler (snapshot_controller.go) and Reclaiming its deletion and
--     Reconcile; Published and Referenced hold the proofs, SnapshotTests the examples.
--     Pool, Topology, Inventory and Refreshing hold PoolReconciler (pool_controller.go): what it
--     computes, how it plans, pushes and sizes a template, the status, and Reconcile. Discovery, Counting,
--     Bounds and Occupied hold the proofs, PoolTests the examples. The API server, the workers and the
--     helpers of controller-runtime are parameters, with laws for what is relied on.
--   * internal/worker/httpapi: Http. Wire holds the requests and responses and the interface of the
--     manager, Server and Files the handlers of server.go, Client and FileClient the calls of client.go,
--     Retrying the proof on errors, Numbers the one that a printed id is read back, Loopback the one on
--     calls through the server, Tests and LoopbackTests the examples.
--   * internal/controller/worker_dependencies.go: Controller/Workload holds the builder of the StatefulSet
--     of a template, Headroom the proof that its pods hold every slot of the configuration.
--     resource.MustParse is a parameter.
--   * internal/runtime/files.go and files_shell.go, internal/worker/files.go and files_fs.go, with the
--     file methods of internal/runtime/cri/files.go: Worker/Files. Paths holds ResolveUnderRoot and the
--     checks of names, with path.Clean and path.Join written out; Splitting, Resolved and Written the
--     proofs. Shell holds what is written to the shell in the sandbox and read from its output
--     (ReadFileVia, WriteFileVia, ListFilesVia, FileExistsVia), Commands the snippets that the worker
--     has of its own, Base64 the encoding; Trailer, ReadBack and Listed hold the proofs. Calls holds the
--     methods of SlotManager on files, RoundTrip what is read after it was written, Tests, ShellTests
--     and CallTests the examples. The command that runs in the sandbox is a parameter.
-- Base holds what they share: actions that may fail, with the rules for what they keep and how they end,
-- equality tests as decisions, Go's maps as association lists, slices as
-- lists, int32 as integers, the byte order of strings, and sort.Slice as an insertion sort.
--
-- Errors are their sentinels, without the text of the messages. A method under a mutex is one step.
-- Logging, contexts and the clock are left out.
--
-- Not modelled: the runtimes (internal/runtime/cri/runtime.go and internal/runtime/kata) and the
-- snapshotters but their registry (internal/snapshotter), which start processes, mount files and speak to
-- the kernel and to the services of a host; internal/snapshotstore/s3.go, which only calls the AWS client;
-- the generated code; the programs under cmd and the client libraries, which only connect the parts.
pub mod Base
pub mod Slot
pub mod Scheduler
pub mod Worker
pub mod Store
pub mod Controller
pub mod Http
