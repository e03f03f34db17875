-- ===== src/Master/Embeddings/Provider.antt =====
-- The protocol `EmbeddingProvider` of src/vaultmcp/master/embeddings.py, and what `embed` raises.
use vaultmcp.Prelude.{ℕ}
use vaultmcp.Prelude.{List}
use vaultmcp.Prelude.{nat_Eq, list_Eq, option_Eq}
use vaultmcp.Prelude.{Result}
use vaultmcp.Prelude.{Text}

pub data EmbedError : Type 0 where
  -- `UnicodeEncodeError` or `OverflowError`
  not_encodable : EmbedError
  http_status : ℕ → EmbedError
  -- the connection, the time limit, or an answer that is no JSON
  http_failed : EmbedError
  unexpected_shape : EmbedError
  no_length : EmbedError
  wrong_dimension : ℕ → ℕ → EmbedError
  not_a_number : EmbedError

pub record EmbeddingProvider (Float : Type 0) : Type 0 where
  pub name : Text
  pub dim : ℕ
  pub embed : Text → Result EmbedError (List Float)
