-- ===== src/Tests.antt =====
-- Concrete inputs for the tests and witnesses, which stand in the children.
pub mod Codec
pub mod Setup
pub mod Shelf
pub mod Routes
pub mod Decisions
pub mod Leases
pub mod Digests
pub mod Statistics
pub mod Activations
pub mod Proxying
pub mod Recording
pub mod Persistence
pub mod Writing
pub mod Batches
pub mod Partitions
pub mod Filtering
pub mod Authentication
