-- ===== src/Master/Mcp/Open.antt =====
-- The MCP transports ask for no token.
use vaultmcp.Prelude.{◌≡◌, refl}
use vaultmcp.Prelude.{true, none, some}
use vaultmcp.Prelude.{nat_Eq, list_Eq, option_Eq}
use vaultmcp.Prelude.{ok}
use vaultmcp.Prelude.{Text}
use vaultmcp.Shared.Value.{Fields}
use vaultmcp.Shared.FilePath.{Parts}
use vaultmcp.Master.Validation.{default_max_file_size_bytes, validate_write_content, parsed}
use vaultmcp.Master.Db.Rows.{PageRow}
use vaultmcp.Master.Db.Pages.{get_page}
use vaultmcp.Master.Db.Pages.Write.{version_of}
use vaultmcp.Master.Tools.{Env, World, WriteInput, admit_write, enforce_session_matches_server}
use vaultmcp.Master.Tools.Locality.{stored_if_admitted}
use vaultmcp.Master.Server.{Backend, wiki_write, valid_arguments, call_handler_by_name, dispatch}
use vaultmcp.Master.Mcp.{default_settings, call_mcp_tool}

admitted_by_default :
    (env : Env) (wiki_dir : Parts) (inp : WriteInput) (m : Fields) (body : Text)
    → validate_write_content env.unicode env.codec inp.content default_max_file_size_bytes ≡ ok tt
    → parsed env.codec inp.content ≡ ok (m, body)
    → admit_write env (default_settings wiki_dir) none inp ≡ ok m
unfolding admit_write enforce_session_matches_server
admitted_by_default env wiki_dir inp m body v q = rw (v, q) refl

-- Over MCP a write of valid content, whose front matter the database can store, and that names the
-- version of the page is stored under the name of
-- whatever server its session names: no token is asked for, and no ownership rule is consulted,
-- whichever servers are registered.
pub mcp_write_is_stored :
    (backend : Backend) (env : Env) (wiki_dir : Parts) (inp : WriteInput) (w : World) (m : Fields)
    (body : Text)
    → valid_arguments (wiki_write inp) ≡ true
    → validate_write_content env.unicode env.codec inp.content default_max_file_size_bytes ≡ ok tt
    → parsed env.codec inp.content ≡ ok (m, body)
    → env.storable m ≡ true
    → inp.base_version ≡ version_of (get_page inp.path w.db)
    → (p : PageRow) × (get_page inp.path
          (call_mcp_tool backend env wiki_dir (wiki_write inp) w).1.db
        ≡ some p)
      × (p.content ≡ inp.content)
      × (p.last_writer_server ≡ inp.session.server_id)
unfolding call_mcp_tool call_handler_by_name dispatch
mcp_write_is_stored backend env wiki_dir inp w m body args v q kept base = rw args (
    stored_if_admitted env (default_settings wiki_dir) inp m w
      (admitted_by_default env wiki_dir inp m body v q) kept base)
