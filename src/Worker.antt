-- ===== src/Worker.antt =====
-- internal/worker: the agent of a worker node, which runs sandboxes in its slots.
pub mod Types
pub mod Slots
pub mod Manager
pub mod Snapshots
pub mod Restoring
pub mod WellFormed
pub mod Starting
pub mod Stopping
pub mod Restored
pub mod Saved
pub mod Topology
pub mod Applying
pub mod Invariant
pub mod History
pub mod Ownership
pub mod Success
pub mod Lifecycle
pub mod Recovery
pub mod Listing
pub mod Files
pub mod Names
mod Tests
mod SnapshotTests
