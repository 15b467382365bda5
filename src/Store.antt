-- ===== src/Store.antt =====
-- internal/snapshotstore: the layout of memory snapshots in a blob storage.
pub mod Paths
pub mod Ops
pub mod Keys
pub mod Sending
pub mod Publishing
pub mod Faithful
pub mod Packing
pub mod RoundTrip
pub mod Deleting
mod Tests
mod RoundTripTests
