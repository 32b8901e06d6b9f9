-- ===== src/Ssh.antt =====
-- app/services/ssh_service.py: the closed catalogue of remote operations.
pub mod Catalogue
pub mod Inventory
pub mod HostKey
pub mod Connect
pub mod Trust
mod Tests
