-- ===== src/Alerts.antt =====
-- The alerts: app/models/alert.py, app/repositories/alert_repository.py, app/services/alert_service.py
-- and app/api/v1/alerts.py.
pub mod Types
pub mod Evaluate
pub mod Sync
pub mod Fired
pub mod Current
mod Tests
