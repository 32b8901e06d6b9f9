-- ===== src/Servers.antt =====
-- The inventory of servers: app/repositories/server_repository.py and app/api/v1/servers.py.
mod Types
mod Relations
mod Repository
mod Endpoints
mod Rows
mod Retired
mod Removal
mod Unique
mod Changes
mod Tests
