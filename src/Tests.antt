-- ===== src/Tests.antt =====
-- Runs of the model at concrete inputs: a small server with its libraries, and the theorems applied
-- to it.
pub mod Fixture
pub mod Runs
pub mod Goroutines
pub mod Interleaved
pub mod Server
pub mod Parts
pub mod Web
pub mod Grpc
pub mod Queues
pub mod Streams
pub mod Pair
pub mod Listing
pub mod Starting
pub mod Stopping
