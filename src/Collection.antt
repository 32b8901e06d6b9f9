-- ===== src/Collection.antt =====
-- The collections: app/collectors/ and app/repositories/collection_run_repository.py.
pub mod Runs
pub mod Runner
pub mod Locks
pub mod Exclusion
pub mod Ended
pub mod Channels
pub mod Synchronised
pub mod Samples
pub mod Sampled
mod Tests
