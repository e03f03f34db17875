-- ===== src/Master/Errors.antt =====
-- src/vaultmcp/master/errors.py. The message of an error is kept as the reason with the values that
-- are put into it.
use vaultmcp.Prelude.{ℕ}
use vaultmcp.Prelude.{Option, List}
use vaultmcp.Prelude.{nat_Eq, list_Eq, option_Eq}
use vaultmcp.Prelude.{Text}
use vaultmcp.Shared.Value.{Value}
use vaultmcp.Shared.Frontmatter.{FrontmatterError}

pub data Reason : Type 0 where
  nul_byte bare_cr no_frontmatter bad_title bad_owners bad_owner_entry bad_updated : Reason
  bad_frontmatter : FrontmatterError → Reason
  missing_keys : List Text → Reason
  bad_type : Option Value → Reason
  secret : Text → Reason
  no_embedder : Text → Reason
  bad_extension_name : Text → Reason
  bad_table_name : Text → Reason
  bad_prefix_end : Text → Reason
  bad_prefix_start : Text → Reason
  already_registered : Text → Reason
  write_keyword : Text → Reason
  bad_column_type : Text → Text → Reason
  bad_reference : Text → Reason
  no_columns : Reason
  duplicate_column : Text → Reason
  two_primary_keys : Reason
  prefixed_path : Reason

pub data Denial : Type 0 where
  other_server : Text → Text → Denial
  other_app : Text → Text → Denial
  human_only : Text → Text → Denial
  not_producer : Text → Text → Text → Text → Denial

pub data RuleError : Type 0 where
  not_a_string : Text → RuleError
  empty_producer : Text → RuleError
  not_supported : Text → Text → RuleError
  unrecognised : Text → Text → RuleError
  bad_yaml not_a_mapping bad_section : RuleError
  -- a pattern that is no text
  bad_pattern : RuleError

-- `WriteConflict` of src/vaultmcp/shared/types.py.
pub record WriteConflict : Type 0 where
  pub current_version : ℕ
  pub current_content : Text
  pub last_writer : Text

pub data ToolError : Type 0 where
  not_found : Text → ToolError
  forbidden : Denial → ToolError
  validation_failed : Reason → ToolError
  size_limit_exceeded : ℕ → ℕ → ToolError
  conflict : WriteConflict → ToolError
  ownership_config : RuleError → ToolError
  render_failed : ToolError
  unknown_tool : Text → ToolError
  -- the `ValidationError` of an input model
  invalid_arguments : ToolError
  -- any other exception: Postgres, the embedding provider
  internal : ToolError

-- The class attribute `status`, or the one given to the constructor; for the exceptions that are no
-- `ToolError`, the status that the server answers with.
unfoldable pub status : ToolError → ℕ
status (not_found t) = 404
status (forbidden d) = 403
status (validation_failed r) = 422
status (size_limit_exceeded n m) = 413
status (conflict c) = 409
status (ownership_config e) = 500
status render_failed = 500
status (unknown_tool t) = 400
status invalid_arguments = 422
status internal = 500
