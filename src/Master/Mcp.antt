-- ===== src/Master/Mcp.antt =====
-- src/vaultmcp/master/mcp_adapter.py: the tools over the MCP package's transports. The JSON of an answer
-- is its text block.
pub mod Open
use vaultmcp.Prelude.{ℕ, zero, suc, ◌+◌, ◌-◌, ◌*◌, ◌/◌, ◌%◌, ◌^◌, ◌≤◌, ◌<◌, min, max, String}
use vaultmcp.Prelude.{◌≡◌, refl, sym, ap, ◌∙◌, fun_ext, ◌≢◌, ◌↔◌, ◌⊎◌, inl, inr}
use vaultmcp.Prelude.{Bool, true, false, not, ◌&&◌, ◌||◌, Option, none, some, List, [], ◌∷◌, ◌++◌}
use vaultmcp.Prelude.{
  map, reverse, arith, ltb, leb, nat_eq, if◌then◌else◌, Bool-cases, Option-cases,
}
use vaultmcp.Prelude.{
  Eq, ◌==◌, nat_Eq, list_Eq, option_Eq, list_eq_iff, option_eq_iff, nat_eq_iff, beq_refl,
}
use vaultmcp.Prelude.{
  length, take, drop, last?, select, find, any, all, All, length-append, length-take,
}
use vaultmcp.Prelude.{
  take_all, place, sort_by, Result, ok, err, ◌>>=◌, ◌>>◌, guard, bind-ok, Result-cases,
}
use vaultmcp.Prelude.{
  Text, codes, starts_with, is_space, lstrip, rstrip, strip, partition, split, join, text_le,
}
use vaultmcp.Prelude.{subst}
use vaultmcp.Shared.FilePath.{Parts}
use vaultmcp.Master.Errors.{
  ToolError, WriteConflict, not_found, forbidden, validation_failed, size_limit_exceeded, conflict,
  ownership_config, render_failed, unknown_tool, invalid_arguments, internal,
}
use vaultmcp.Master.Validation.{default_max_file_size_bytes}
use vaultmcp.Master.Search.{Engine}
use vaultmcp.Master.Tools.{Env, World, Settings}
use vaultmcp.Master.Server.{Backend, ToolCall, Reply, call_handler_by_name}

-- `_TOOL_SPECS`: the names that the server lists.
unfoldable pub tool_names : List Text
tool_names =
    codes "wiki.read"
    ∷ codes "wiki.list"
    ∷ codes "wiki.search"
    ∷ codes "wiki.audit"
    ∷ codes "wiki.write"
    ∷ codes "wiki.append_log"
    ∷ []

-- The arguments of `call_handler_by_name` that the adapter leaves at their defaults: the size limit, no
-- ownership rules, no embedder and no authenticated server.
abbrev pub default_settings : Parts → Settings
default_settings wiki_dir = record {
  wiki_dir = wiki_dir;
  max_bytes = default_max_file_size_bytes;
  ownership = none;
}

abbrev pub without_embedder : Backend → Backend
without_embedder backend = record backend { engine = record backend.engine { embedder = none } }

module _ (backend : Backend) where
  -- A text block, or an exception, which the package turns into a result with `isError`.
  pub data McpAnswer : Type 0 where
    text_block : Reply (without_embedder backend) → McpAnswer
    conflict_error : WriteConflict → McpAnswer
    raised : ToolError → McpAnswer

  unfoldable pub as_mcp_answer : Result ToolError (Reply (without_embedder backend)) → McpAnswer
  as_mcp_answer (ok r) = text_block r
  as_mcp_answer (err (conflict c)) = conflict_error c
  as_mcp_answer (err e) = raised e

  -- `_call_tool`
  unfoldable pub call_mcp_tool : Env → Parts → ToolCall → World → McpAnswer × World
  unfolding call_handler_by_name as_mcp_answer
  call_mcp_tool env wiki_dir call w =
      let (r, w') =
        call_handler_by_name (without_embedder backend) env (default_settings wiki_dir) none call
          w in
      (as_mcp_answer r, w')
