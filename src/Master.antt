-- ===== src/Master.antt =====
-- src/vaultmcp/master
pub mod Db
pub mod Errors
pub mod Validation
pub mod Ownership
pub mod Auth
pub mod Render
pub mod Extensions
pub mod Fusion
pub mod Tools
pub mod Sse
pub mod Embeddings
pub mod Search
pub mod ExtTools
pub mod ExtSql
pub mod Server
pub mod Mcp
pub mod Dashboard
pub mod Cli
