-- ===== src/Sources.antt =====
-- The sources of the measurements: app/adapters/prometheus.py, inventory.py and composite.py.
mod Json
mod Fetch
mod Queries
mod Host
mod Infrastructure
mod Probe
mod Groups
mod Inventory
mod Database
mod Sent
mod Grouped
mod Own
mod Alone
mod Refused
mod Composite
mod Cycles
mod Tests
