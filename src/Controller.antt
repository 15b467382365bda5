-- ===== src/Controller.antt =====
-- internal/controller: the controllers that bring the objects of the API server and the workers
-- together.
pub mod Objects
pub mod Clients
pub mod Sandbox
pub mod Snapshot
pub mod Reclaiming
pub mod Keeping
pub mod Synced
pub mod Finalizing
pub mod Cooperative
pub mod Started
pub mod Placing
pub mod Running
pub mod Pool
pub mod Topology
pub mod Inventory
pub mod Refreshing
pub mod Discovery
pub mod Counting
pub mod Bounds
pub mod Occupied
pub mod Workload
pub mod Headroom
pub mod Published
pub mod Referenced
mod Tests
mod SnapshotTests
mod PoolTests
