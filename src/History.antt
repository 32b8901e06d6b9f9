-- ===== src/History.antt =====
-- The stored samples of servers and channels: how they are read page by page, and how the old ones
-- are removed.
pub mod Samples
mod Cursor
mod Pages
mod Cursors
mod Sorted
mod Parts
mod Retention
mod Pruned
mod Follow
mod Tests
