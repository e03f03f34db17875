-- ===== src/Master/Cli.antt =====
-- src/vaultmcp/master/__main__.py: the commands that change the tables or the wiki directory.
pub mod RenderAll
pub mod Ingest
pub mod Servers
