-- ===== src/Master/Tools.antt =====
-- src/vaultmcp/master/tools.py: the handlers of the wiki tools. A handler gives its answer or its error,
-- and the world after it.
pub mod Write
pub mod Locality
use vaultmcp.Prelude.{true, false}
use vaultmcp.Prelude.{ℕ}
use vaultmcp.Prelude.{Bool, not, Option, none, some, List}
use vaultmcp.Prelude.{if◌then◌else◌}
use vaultmcp.Prelude.{◌==◌, nat_Eq, list_Eq, option_Eq}
use vaultmcp.Prelude.{any}
use vaultmcp.Prelude.{Result, ok, err, ◌>>=◌, ◌>>◌}
use vaultmcp.Prelude.{Text}
use vaultmcp.Prelude.Regex.{Unicode}
use vaultmcp.Shared.Value.{Fields, DateTime}
use vaultmcp.Shared.Frontmatter.{Codec, extract_type, extract_owners, extract_updated}
use vaultmcp.Shared.FilePath.{Parts, Disk}
use vaultmcp.Master.Errors.{
  ToolError, WriteConflict, not_found, forbidden, other_server, other_app, conflict, render_failed,
  internal,
}
use vaultmcp.Master.Auth.{AuthenticatedServer}
use vaultmcp.Master.Ownership.{Rule, check_write}
use vaultmcp.Master.Validation.{validate_write_content, parsed}
use vaultmcp.Master.Render.{Rendered, rendered, escapes, os_error, render_to_disk}
use vaultmcp.Master.Db.Rows.{Db, PageRow, AuditRow}
use vaultmcp.Master.Db.Pages.{
  PageWrite, PageFilter, WriteOutcome, WriteResult, ConflictResult, written, conflicted, get_page,
  list_pages, write_page,
}
use vaultmcp.Master.Db.Audit.{AuditFilter, list_audit}
use vaultmcp.Master.Db.Events.{LogArgs, append_log}

-- What the handlers are given from outside: the packages, the time, and how asyncpg stores a datetime.
pub record Env : Type 0 where
  pub codec : Codec
  pub unicode : Unicode
  pub timestamp : DateTime → ℕ
  pub now : ℕ
  pub disk_works : Bool
  pub storable : Fields → Bool

-- The state that the handlers change.
pub record World : Type 0 where
  pub db : Db
  pub disk : Disk

-- `Session` and the inputs of src/vaultmcp/shared/types.py.
pub record Session : Type 0 where
  pub server_id : Text
  pub app : Text
  pub agent_model : Text
  pub prompt_hash : Option Text
  pub session_id : Text

pub record WriteInput : Type 0 where
  pub path : Text
  pub content : Text
  pub base_version : Option ℕ
  pub session : Session

pub record WriteOutput : Type 0 where
  pub path : Text
  pub version : ℕ
  pub global_version : ℕ
  pub applied_at : ℕ

-- The settings that the server passes along.
pub record Settings : Type 0 where
  pub wiki_dir : Parts
  pub max_bytes : ℕ
  pub ownership : Option (List Rule)

unfoldable pub enforce_session_matches_server :
    Text → Text → Option AuthenticatedServer → Result ToolError (Unit {0})
enforce_session_matches_server server_id app none = ok tt
enforce_session_matches_server server_id app (some authed) =
    if not (server_id == authed.id)
    then err (forbidden (other_server server_id authed.id))
    else if not (any (λ a. a == app) authed.apps)
    then err (forbidden (other_app authed.id app))
    else ok tt

unfoldable pub handle_read : Db → Text → Result ToolError PageRow
unfolding get_page
handle_read db path = elim (get_page path db) [ none ↦ err (not_found path) | some page ↦ ok page ]

abbrev pub check_ownership : Option (List Rule) → Text → Text → Result ToolError (Unit {0})
check_ownership none path app = ok tt
check_ownership (some rules) path app = check_write rules path app

abbrev pub as_conflict : ConflictResult → WriteConflict
as_conflict c = record {
  current_version = c.current_version;
  current_content = c.current_content;
  last_writer = c.last_writer;
}

abbrev pub updated_or_now : Env → Option DateTime → ℕ
updated_or_now env none = env.now
updated_or_now env (some d) = env.timestamp d

-- The arguments that `handle_write` passes to `write_page`.
unfoldable pub page_write : Env → WriteInput → Fields → PageWrite
unfolding extract_type extract_owners extract_updated
page_write env inp metadata = record {
  path = inp.path;
  content = inp.content;
  base_version = inp.base_version;
  metadata = metadata;
  page_type = extract_type metadata;
  owners = extract_owners metadata;
  updated = updated_or_now env (extract_updated env.codec metadata);
  last_writer_server = inp.session.server_id;
  last_writer_app = inp.session.app;
  last_writer_session = inp.session.session_id;
  agent_model = some inp.session.agent_model;
  prompt_hash = inp.session.prompt_hash;
  client_ip = none;
}

-- The checks before the database is asked, and the second parse of the front matter.
unfoldable pub admit_write :
    Env → Settings → Option AuthenticatedServer → WriteInput → Result ToolError Fields
admit_write env settings authed inp = do
  enforce_session_matches_server inp.session.server_id inp.session.app authed
  check_ownership settings.ownership inp.path inp.session.app
  validate_write_content env.unicode env.codec inp.content settings.max_bytes
  (metadata, body) ← parsed env.codec inp.content
  ok metadata

abbrev pub write_output : WriteResult → WriteOutput
write_output r = record {
  path = r.path;
  version = r.version;
  global_version = r.global_version;
  applied_at = r.applied_at;
}

-- The page file is written after the transaction; if that fails the page stays written.
unfoldable pub after_render :
    WriteResult → Db → Disk → Rendered → Result ToolError WriteOutput × World
after_render r db disk (rendered disk') = (ok (write_output r), record { db = db; disk = disk' })
after_render r db disk escapes = (err render_failed, record { db = db; disk = disk })
after_render r db disk os_error = (err render_failed, record { db = db; disk = disk })

unfoldable pub after_write :
    Env → Settings → WriteInput → Disk → WriteOutcome × Db → Result ToolError WriteOutput × World
unfolding after_render render_to_disk
after_write env settings inp disk (conflicted c, db) =
    (err (conflict (as_conflict c)), record { db = db; disk = disk })
after_write env settings inp disk (written r, db) =
    after_render r db disk
      (render_to_disk env.disk_works settings.wiki_dir inp.path inp.content disk)

-- The metadata of an accepted write that `json.dumps` or JSONB refuses raises inside the transaction of
-- `write_page`, which is rolled back; a conflict is found before.
unfoldable pub encoded :
    Bool
    → World
    → WriteOutcome
    → Result ToolError WriteOutput × World
    → Result ToolError WriteOutput × World
encoded true w o answer = answer
encoded false w (conflicted c) answer = answer
encoded false w (written r) answer = (err internal, w)

unfoldable pub write_admitted :
    Env
    → Settings
    → WriteInput
    → World
    → Result ToolError Fields
    → Result ToolError WriteOutput × World
unfolding write_page page_write after_write encoded
write_admitted env settings inp w (err e) = (err e, w)
write_admitted env settings inp w (ok metadata) =
    let outcome = write_page env.now (page_write env inp metadata) w.db in
    encoded (env.storable metadata) w outcome.0 (after_write env settings inp w.disk outcome)

unfoldable pub handle_write :
    Env
    → Settings
    → Option AuthenticatedServer
    → WriteInput
    → World
    → Result ToolError WriteOutput × World
unfolding admit_write write_admitted
handle_write env settings authed inp w =
    write_admitted env settings inp w (admit_write env settings authed inp)

unfoldable pub handle_list : Db → PageFilter → Option (List PageRow × Option Text)
unfolding list_pages
handle_list db f = list_pages f db

unfoldable pub handle_audit : Db → AuditFilter → List AuditRow
unfolding list_audit
handle_audit db f = list_audit f db

unfoldable pub handle_append_log :
    Env → Option AuthenticatedServer → LogArgs → World → Result ToolError (ℕ × ℕ) × World
unfolding enforce_session_matches_server append_log
handle_append_log env authed inp w =
    elim (enforce_session_matches_server inp.server_id inp.app authed) [
      | err e ↦ (err e, w)
      | ok u ↦ let (r, db) = append_log env.now inp w.db in (ok r, record w { db = db })
    ]
