-- ===== src/Agent.antt =====
-- src/vaultmcp/agent
pub mod Client
pub mod Suppressor
pub mod VersionCache
pub mod Queue
pub mod Mirror
pub mod Sync
pub mod Watcher
