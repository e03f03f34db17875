-- ===== src/Master/Db.antt =====
-- src/vaultmcp/master/db.py
pub mod Rows
pub mod Tables
pub mod Audit
pub mod Like
pub mod Pages
pub mod Events
pub mod Jobs
pub mod Servers
pub mod Walk
pub mod Ranked
pub mod Extensions
pub mod Invariant
