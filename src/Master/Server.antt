-- ===== src/Master/Server.antt =====
-- src/vaultmcp/master/server.py: `POST /mcp/call` with its authentication, over `call_handler_by_name`
-- of src/vaultmcp/master/tools.py.
pub mod Access
use vaultmcp.Prelude.{ℕ}
use vaultmcp.Prelude.{Bool, true, ◌&&◌, Option, none, some, List}
use vaultmcp.Prelude.{ltb, leb, if◌then◌else◌}
use vaultmcp.Prelude.{nat_Eq, list_Eq, option_Eq}
use vaultmcp.Prelude.{length, all}
use vaultmcp.Prelude.{Result, ok, err}
use vaultmcp.Prelude.{Text}
use vaultmcp.Master.Errors.{ToolError, status, unknown_tool, internal, invalid_arguments}
use vaultmcp.Master.Auth.{
  Authenticated, AuthenticatedServer, dev_mode, authenticated, token_required, invalid_token,
  authenticate,
}
use vaultmcp.Master.Tools.{
  Env, World, Settings, WriteInput, WriteOutput, handle_read, handle_write, handle_list,
  handle_audit, handle_append_log,
}
use vaultmcp.Prelude.Ints.{ℤ}
use vaultmcp.Shared.Value.{Value}
use vaultmcp.Shared.Frontmatter.{is_page_type}
use vaultmcp.Master.Extensions.{ExtColumnSpec, is_identifier}
use vaultmcp.Master.Fusion.{Entry}
use vaultmcp.Master.Search.{Engine, SearchInput, handle_search}
use vaultmcp.Master.ExtTools.{
  Postgres, RegisterInput, DeclareInput, handle_ext_register, handle_ext_list,
  handle_ext_declare_table, handle_ext_embed, handle_ext_emit_event, handle_ext_deregister,
}
use vaultmcp.Master.ExtSql.{
  Sql, QueryInput, QueryOutput, ExecInput, handle_ext_query, handle_ext_exec,
}
use vaultmcp.Master.Db.Extensions.{Report}
use vaultmcp.Master.Db.Rows.{Db, PageRow, AuditRow, ExtensionRow}
use vaultmcp.Master.Db.Pages.{PageFilter}
use vaultmcp.Master.Db.Audit.{AuditFilter}
use vaultmcp.Master.Db.Events.{LogArgs}

-- What the handlers are given besides: the search engine, the role system, and the SQL of extensions.
pub record Backend : Type 1 where
  pub engine : Engine
  pub postgres : Postgres
  pub sql : Sql

-- A call, with the arguments that its model has taken.
pub data ToolCall : Type 0 where
  wiki_read : Text → ToolCall
  wiki_write : WriteInput → ToolCall
  wiki_list : PageFilter → ToolCall
  wiki_append_log : LogArgs → ToolCall
  wiki_audit : AuditFilter → ToolCall
  wiki_search : SearchInput → ToolCall
  register_extension : RegisterInput → ToolCall
  list_extensions : ToolCall
  declare_table : DeclareInput → ToolCall
  query_extension : QueryInput → ToolCall
  exec_extension : ExecInput → ToolCall
  embed_text : Text → Text → Text → ToolCall
  emit_event : Text → Text → Option Text → Value → ToolCall
  deregister_extension : Text → ToolCall
  other_tool : Text → ToolCall

abbrev pub within : ℕ → ℕ → ℕ → Bool
within lo hi n = leb lo n && leb n hi

abbrev pub sized : ℕ → ℕ → Text → Bool
sized lo hi t = within lo hi (length t)

abbrev short : ℕ → Option Text → Bool
short hi none = true
short hi (some t) = leb (length t) hi

abbrev nonempty : Text → Bool
nonempty t = ltb 0 (length t)

abbrev typed : Option Text → Bool
typed none = true
typed (some t) = is_page_type t

-- `min_length=1, max_length=63, pattern=r"^[a-z][a-z0-9_]*$"`
abbrev named : Text → Bool
named t = sized 1 63 t && is_identifier t

-- The constraints of the input models in src/vaultmcp/shared/types.py.
unfoldable pub valid_arguments : ToolCall → Bool
unfolding is_identifier is_page_type
valid_arguments (wiki_read path) = nonempty path
valid_arguments (wiki_write inp) =
    nonempty inp.path
    && sized 1 64 inp.session.server_id
    && sized 1 64 inp.session.app
    && sized 1 128 inp.session.agent_model
    && short 128 inp.session.prompt_hash
    && leb (length inp.session.session_id) 128
valid_arguments (wiki_list f) = typed f.type_filter && within 1 500 f.limit
valid_arguments (wiki_append_log a) = true
valid_arguments (wiki_audit f) = within 1 500 f.limit
valid_arguments (wiki_search inp) =
    nonempty inp.query && typed inp.page_type && within 1 200 inp.limit
valid_arguments (register_extension inp) = named inp.name
valid_arguments list_extensions = true
valid_arguments (declare_table inp) =
    nonempty inp.extension
    && named inp.name
    && ltb 0 (length inp.columns)
    && all (λ (c : ExtColumnSpec). named c.name) inp.columns
valid_arguments (query_extension inp) =
    nonempty inp.extension && nonempty inp.sql && within 1 5000 inp.limit
valid_arguments (exec_extension inp) = nonempty inp.extension && nonempty inp.sql
valid_arguments (embed_text extension rel_path content) =
    nonempty extension && sized 1 512 rel_path && sized 1 1048576 content
valid_arguments (emit_event extension event_type path payload) =
    nonempty extension && sized 1 64 event_type
valid_arguments (deregister_extension name) = named name
valid_arguments (other_tool name) = true

module _ (backend : Backend) where
  pub data Reply : Type 0 where
    page : PageRow → Reply
    wrote : WriteOutput → Reply
    pages : List PageRow → Option Text → Reply
    logged : ℕ → ℕ → Reply
    audited : List AuditRow → Reply
    searched : List (Entry backend.engine.floats) → Reply
    registered : ExtensionRow → Reply
    extensions : List ExtensionRow → Reply
    declared : Text → ℕ → Reply
    queried : QueryOutput → Reply
    executed : ℤ → Reply
    embedded : Text → Bool → Reply
    emitted : ℕ → Text → ℕ → Reply
    deregistered : Report → Reply

  abbrev pub map_reply : {A : Type 0} → (A → Reply) → Result ToolError A → Result ToolError Reply
  map_reply f (ok a) = ok (f a)
  map_reply f (err e) = err e

  abbrev listed : Option (List PageRow × Option Text) → Result ToolError Reply
  listed none = err internal
  listed (some (rows, cursor)) = ok (pages rows cursor)

  -- An extension handler's answer, with the tables after it put back into the world.
  abbrev pub on_tables :
      {A : Type 0} → (A → Reply) → World → Result ToolError A × Db → Result ToolError Reply × World
  on_tables f w (r, db) = (map_reply f r, record w { db = db })

  unfoldable pub dispatch :
      Env
      → Settings
      → Option AuthenticatedServer
      → ToolCall
      → World
      → Result ToolError Reply × World
  unfolding handle_read handle_write handle_list handle_append_log handle_audit handle_search
      handle_ext_register handle_ext_list handle_ext_declare_table handle_ext_query handle_ext_exec
      handle_ext_embed handle_ext_emit_event handle_ext_deregister
  dispatch env settings authed (wiki_read path) w = (map_reply page (handle_read w.db path), w)
  dispatch env settings authed (wiki_write inp) w =
      let (r, w') = handle_write env settings authed inp w in (map_reply wrote r, w')
  dispatch env settings authed (wiki_list f) w = (listed (handle_list w.db f), w)
  dispatch env settings authed (wiki_append_log a) w =
      let (r, w') = handle_append_log env authed a w in (map_reply (λ (id, gv). logged id gv) r, w')
  dispatch env settings authed (wiki_audit f) w = (ok (audited (handle_audit w.db f)), w)
  dispatch env settings authed (wiki_search inp) w =
      (map_reply searched (handle_search backend.engine w.db inp), w)
  dispatch env settings authed (register_extension inp) w =
      on_tables registered w (handle_ext_register env.now inp w.db)
  dispatch env settings authed list_extensions w = (ok (extensions (handle_ext_list w.db)), w)
  dispatch env settings authed (declare_table inp) w =
      on_tables (λ (name, n). declared name n) w
        (handle_ext_declare_table backend.postgres inp w.db)
  dispatch env settings authed (query_extension inp) w =
      (map_reply queried (handle_ext_query env.unicode backend.sql inp w.db), w)
  dispatch env settings authed (exec_extension inp) w =
      on_tables executed w (handle_ext_exec backend.sql inp w.db)
  dispatch env settings authed (embed_text extension rel_path content) w =
      on_tables (λ (path, queued). embedded path queued) w
        (handle_ext_embed env.now extension rel_path content w.db)
  dispatch env settings authed (emit_event extension event_type path payload) w =
      on_tables (λ (id, kind, gv). emitted id kind gv) w
        (handle_ext_emit_event env.now backend.postgres extension event_type path payload w.db)
  dispatch env settings authed (deregister_extension name) w =
      on_tables deregistered w (handle_ext_deregister backend.postgres name w.db)
  dispatch env settings authed (other_tool name) w = (err (unknown_tool name), w)

  unfoldable pub call_handler_by_name :
      Env
      → Settings
      → Option AuthenticatedServer
      → ToolCall
      → World
      → Result ToolError Reply × World
  unfolding valid_arguments dispatch
  call_handler_by_name env settings authed call w =
      if valid_arguments call
      then dispatch env settings authed call w
      else (err invalid_arguments, w)

  pub data HttpAnswer : Type 0 where
    answered : Reply → HttpAnswer
    failed : ℕ → Option ToolError → HttpAnswer

  abbrev pub as_answer : Result ToolError Reply → HttpAnswer
  as_answer (ok r) = answered r
  as_answer (err e) = failed (status e) (some e)

  abbrev pub respond : Result ToolError Reply × World → HttpAnswer × World
  respond (r, w) = (as_answer r, w)

  unfoldable pub call_as : Env → Settings → Authenticated → ToolCall → World → HttpAnswer × World
  unfolding status call_handler_by_name
  call_as env settings dev_mode call w = respond (call_handler_by_name env settings none call w)
  call_as env settings (authenticated s) call w =
      respond (call_handler_by_name env settings (some s) call w)
  call_as env settings token_required call w = (failed 401 none, w)
  call_as env settings invalid_token call w = (failed 401 none, w)

  unfoldable pub call_tool :
      (Text → Text) → Env → Settings → Option Text → ToolCall → World → HttpAnswer × World
  unfolding authenticate call_as
  call_tool hash_token env settings authorization call w =
      call_as env settings (authenticate hash_token authorization w.db) call w
