-- ===== src/Shared.antt =====
-- src/vaultmcp/shared
pub mod Value
pub mod Frontmatter
pub mod FilePath
pub mod EnvFile
