-- ===== src/Master/Embeddings.antt =====
-- src/vaultmcp/master/embeddings.py.
pub mod Hashed
pub mod Compatible
pub mod Provider
pub mod Worker
