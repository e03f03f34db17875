-- ===== src/Editing.antt =====
-- An edit's way from the vault to the master: `_flush` of src/vaultmcp/agent/watcher.py over the client's
-- reading of what `handle_write` of src/vaultmcp/master/tools.py answers.
pub mod Settled
use vaultmcp.Prelude.{ℕ, true, Option, none, some, []}
use vaultmcp.Prelude.{◌≡◌, refl, sym, ap, ◌∙◌, ◌⊎◌, inl, inr}
use vaultmcp.Prelude.{nat_Eq, list_Eq, beq_refl, Text, Result, ok, err}
use vaultmcp.Shared.Value.{Fields}
use vaultmcp.Shared.FilePath.{Parts, resolve, is_relative_to, file_at}
use vaultmcp.Master.Errors.{ToolError, conflict, render_failed, status}
use vaultmcp.Master.Auth.{AuthenticatedServer}
use vaultmcp.Master.Render.{Rendered, rendered, escapes, os_error, render_to_disk}
use vaultmcp.Master.Db.Rows.{Db, PageRow}
use vaultmcp.Master.Db.Pages.{WriteOutcome, WriteResult, written, conflicted, get_page, write_page}
use vaultmcp.Prelude.{subst, ◌≢◌, Option-cases}
use vaultmcp.Master.Db.Pages.{ConflictResult}
use vaultmcp.Master.Tools.{write_output}
use vaultmcp.Master.Db.Pages.Write.{
  write_page_accepts, is_written, conflict_of, version_of, write_page_conflict,
}
use vaultmcp.Master.Tools.{
  Env, World, Settings, WriteInput, WriteOutput, as_conflict, admit_write, page_write, after_write,
  after_render, write_admitted, handle_write,
}
use vaultmcp.Master.Tools.Write.{handle_write-IsStored}
use vaultmcp.Agent.Client.{Answer, answer, ConflictDetail, ClientError, conflict_error, interpret}
use vaultmcp.Agent.Queue.{Session}
use vaultmcp.Agent.VersionCache.{get_version, get_version-set_version}
use vaultmcp.Agent.Mirror.{Agent, replace_local}
use vaultmcp.Agent.Watcher.{Moment, Written, after_send, send_or_queue}
use vaultmcp.Agent.Watcher.Flush.{Timers, relative_path, flush}

-- The body of the request.
abbrev pub write_request : Session → Text → Text → Option ℕ → WriteInput
write_request session path content base = record {
  path = path;
  content = content;
  base_version = base;
  session = record {
    server_id = session.server_id;
    app = session.app;
    agent_model = session.agent_model;
    prompt_hash = none;
    session_id = session.session_id;
  };
}

abbrev no_detail : ConflictDetail
no_detail = record { current_version = 0; current_content = []; last_writer = [] }

abbrev detail_of : ToolError → ConflictDetail
detail_of (conflict c) = record {
  current_version = c.current_version;
  current_content = c.current_content;
  last_writer = c.last_writer;
}
detail_of e = no_detail

-- The response as the client sees it: the status, the body of a 200 and the detail of a 409.
abbrev pub http_answer : Result ToolError WriteOutput → Answer Written
http_answer (ok out) =
    answer 200 (record { version = out.version; global_version = out.global_version }) no_detail
http_answer (err e) = answer (status e) (record { version = 0; global_version = 0 }) (detail_of e)

-- What the agent is told when the master handles its write in the world `w`.
abbrev pub master_answers :
    Env
    → Settings
    → Option AuthenticatedServer
    → World
    → Session
    → Text
    → Text
    → Option ℕ
    → Result ClientError Written
master_answers env settings authed w session path content base =
    interpret
      (http_answer (handle_write env settings authed (write_request session path content base) w).0)
