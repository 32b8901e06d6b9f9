-- ===== src/Onboarding.antt =====
-- The SSH onboarding of a server: app/services/onboarding_service.py, app/models/onboarding.py and
-- the endpoints of app/api/v1/onboarding.py.
pub mod Types
pub mod Texts
pub mod Api
pub mod Job
pub mod Steps
pub mod Precheck
pub mod Run
pub mod Rollback
pub mod Removed
pub mod Postconditions
pub mod Terminal
pub mod Stable
pub mod Installed
pub mod Enabled
pub mod Verified
pub mod Stops
pub mod Requests
mod Visit
mod Preflight
mod Discovery
mod Looks
mod Talks
mod Shown
mod Verdicts
mod Found
mod Backed
mod Health
mod Maintenance
mod Maintained
mod Tests
mod VisitTests
mod HealthTests
