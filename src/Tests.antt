-- ===== src/Tests.antt =====
-- A host, a server and a guest to run the model on, and runs of the theorems on them.
pub mod Fixtures
mod Host
mod Interleavings
mod Network
mod Wire
mod Utf8
mod Connection
mod Listing
mod Benchmarks
mod Starting
mod Golden
