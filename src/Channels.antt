-- ===== src/Channels.antt =====
-- The channels: app/models/channel.py and app/repositories/channel_repository.py.
pub mod Types
pub mod Rows
pub mod Parts
pub mod Sync
pub mod Reconcile
pub mod Identity
pub mod Stored
pub mod Missing
mod Tests
