-- ===== src/Tests/Commands.antt =====
-- The commands of the master at concrete inputs.
use vaultmcp.Shared.FilePath.{temp_of}
use vaultmcp.Prelude.{◌<◌}
use vaultmcp.Prelude.{◌≡◌, refl, inl}
use vaultmcp.Prelude.{true, false, none, some, List, [], ◌∷◌}
use vaultmcp.Prelude.{arith, if◌then◌else◌}
use vaultmcp.Prelude.{◌==◌, nat_Eq, list_Eq, option_Eq}
use vaultmcp.Prelude.{length, any, All}
use vaultmcp.Prelude.{ok}
use vaultmcp.Prelude.{codes, is_space}
use vaultmcp.Shared.FilePath.{Parts, resolve, file_at}
use vaultmcp.Shared.Frontmatter.{normalize}
use vaultmcp.Master.Auth.{authenticate, authenticated, invalid_token, dev_mode}
use vaultmcp.Master.Db.Rows.{PageRow, ServerRow, fresh}
use vaultmcp.Master.Db.Tables.{lookup}
use vaultmcp.Master.Db.Servers.{server_key, add_server, count_servers}
use vaultmcp.Master.Db.Pages.{get_page, page_row, write_page}
use vaultmcp.Master.Db.Pages.Register.{Call, write, read, db_run, spec_run, view, db_run_refines}
use vaultmcp.Master.Db.Invariant.{IsConsistent}
use vaultmcp.Master.Db.Invariant.Steps.{start, next, write_page_step, Reach-IsConsistent}
use vaultmcp.Master.Db.Tables.Keys.{NodupKeys}
use vaultmcp.Master.Db.Walk.{iter_all_pages, walked, in_scope}
use vaultmcp.Master.Db.Walk.Batches.{iter_all_pages-walked}
use vaultmcp.Master.Render.{render_to_disk}
use vaultmcp.Master.Tools.{World, Settings, admit_write, enforce_session_matches_server}
use vaultmcp.Master.Validation.{
  validate_write_content, check_size, check_encoding, check_frontmatter, parsed, check_metadata,
}
use vaultmcp.Master.Validation.Secrets.{check_no_secrets, secret_patterns}
use vaultmcp.Master.Cli.RenderAll.{render_all}
use vaultmcp.Master.Cli.RenderAll.Projection.{HasContent, render_all_projects}
use vaultmcp.Master.Cli.Ingest.{
  SourceFile, IngestOptions, IngestReport, ingest_settings, ingest_input, ingest,
}
use vaultmcp.Master.Cli.Ingest.Outcomes.{ingest_keeps}
use vaultmcp.Master.Cli.Ingest.Imports.{Stored, ingest_stores}
use vaultmcp.Master.Cli.Servers.{rotate_token_cmd, remove_server_cmd, rotated, removed}
use vaultmcp.Master.Cli.Servers.Tokens.{
  bearer, is_token, has_hash, other_has_hash, rotate_token_switches, remove_server_ends,
}
use vaultmcp.Tests.Data.{home_write, one_page, one_server, home_content, home_metadata, test_env}

abbrev three_calls : List Call
three_calls =
    write 5 (home_write none (codes "one"))
    ∷ write 6 (home_write none (codes "two"))
    ∷ read (codes "a.md")
    ∷ []

db_run_refines_example :
    ((db_run three_calls fresh).0 ≡ (spec_run three_calls (view fresh)).0)
    × (view (db_run three_calls fresh).1 ≡ (spec_run three_calls (view fresh)).1)
db_run_refines_example = db_run_refines three_calls fresh

one_page-IsConsistent : IsConsistent one_page
one_page-IsConsistent =
    Reach-IsConsistent (next start (write_page_step 5 (home_write none (codes "one"))))

one_is_walked : length (walked none one_page) < 2
unfolding walked write_page
one_is_walked = omega arith

iter_all_pages-walked_example : iter_all_pages 2 none 1 none one_page ≡ walked none one_page
iter_all_pages-walked_example =
    iter_all_pages-walked 2 none 1 one_page one_page-IsConsistent (omega arith) one_is_walked

abbrev wiki : Parts
wiki = codes "wiki" ∷ []

abbrev home_row : PageRow
home_row = page_row (home_write none (codes "one")) 1 1

none_fails : (render_all (λ p. true) wiki none one_page []).1 ≡ 0
unfolding render_all iter_all_pages render_to_disk write_page
none_fails = refl

home_is_found : get_page (codes "a.md") one_page ≡ some home_row
unfolding get_page write_page
home_is_found = refl

home_in_scope : in_scope none home_row ≡ true
unfolding in_scope
home_in_scope = refl

one_content : All (HasContent wiki (resolve wiki (codes "a.md")) (codes "one")) one_page.pages
unfolding write_page temp_of resolve
one_content = ((λ e. refl, refl), tt)

render_all_projects_example :
    file_at (resolve wiki (codes "a.md")) (render_all (λ p. true) wiki none one_page []).2
    ≡ some (codes "one")
render_all_projects_example =
    render_all_projects (λ p. true) wiki none one_page [] (codes "a.md") home_row
      one_page-IsConsistent none_fails home_is_found home_in_scope one_content

abbrev one_file : SourceFile
one_file = record { rel = codes "b.md"; content = some home_content; env = test_env }

abbrev plain_options : IngestOptions
plain_options = record {
  server_id = codes "ingest";
  app_override = none;
  overwrite = false;
  dry_run = false;
  prefix = none;
}

abbrev import_settings : Settings
import_settings = ingest_settings wiki 1000

abbrev page_world : World
page_world = record { db = one_page; disk = [] }

ingest_keeps_example :
    get_page
      (codes "a.md")
      (ingest (λ p. true) plain_options import_settings (one_file ∷ []) page_world).1.db
    ≡ some home_row
ingest_keeps_example =
    ingest_keeps (λ p. true) plain_options import_settings (one_file ∷ []) page_world (codes "a.md")
      home_row refl home_is_found

abbrev one_import : IngestReport
one_import = record { imported = 1; skipped_existing = 0; skipped_invalid = 0; invalid = [] }

file_is_imported :
    (ingest (λ p. true) plain_options import_settings (one_file ∷ []) page_world).0 ≡ ok one_import
unfolding ingest enforce_session_matches_server validate_write_content check_size check_encoding
    check_frontmatter parsed check_metadata check_no_secrets secret_patterns
file_is_imported = refl

file_is_admitted :
    admit_write test_env import_settings none
      (ingest_input plain_options (codes "b.md") home_content none)
    ≡ ok (normalize home_metadata)
unfolding ingest_input admit_write enforce_session_matches_server validate_write_content check_size
    check_encoding check_frontmatter parsed check_metadata check_no_secrets secret_patterns
file_is_admitted = refl

file_is_new : get_page (codes "b.md") one_page ≡ none
unfolding get_page write_page
file_is_new = refl

ingest_stores_example :
    Stored
      (codes "b.md")
      home_content
      (ingest (λ p. true) plain_options import_settings (one_file ∷ []) page_world).1
ingest_stores_example =
    ingest_stores (λ p. true) plain_options import_settings (one_file ∷ []) page_world one_import []
      [] one_file home_content (normalize home_metadata) refl file_is_imported refl tt tt refl
      file_is_admitted (inl file_is_new)

abbrev home_server_row : ServerRow
home_server_row = record {
  id = codes "s1";
  apps = codes "app" ∷ [];
  token_hash = some (codes "tok");
  rotated_at = some 1;
}

server_is_found : lookup server_key (codes "s1") one_server.servers ≡ some home_server_row
unfolding lookup add_server
server_is_found = refl

one_id : NodupKeys server_key one_server.servers
unfolding add_server
one_id = (tt, tt)

new_is_fresh : any (has_hash (codes "new")) one_server.servers ≡ false
unfolding add_server
new_is_fresh = refl

no_other_server : any (other_has_hash (codes "s1") (codes "tok")) one_server.servers ≡ false
unfolding add_server
no_other_server = refl

new_is_token : is_token (codes "new") ≡ true
unfolding is_space
new_is_token = refl

tok_is_token : is_token (codes "tok") ≡ true
unfolding is_space
tok_is_token = refl

rotate_token_switches_example :
    ((rotate_token_cmd (λ t. t) (codes "new") 9 (codes "s1") one_server).0
      ≡ rotated (codes "s1") (codes "new"))
    × (authenticate
          (λ t. t)
          (bearer (codes "new"))
          (rotate_token_cmd (λ t. t) (codes "new") 9 (codes "s1") one_server).1
        ≡ authenticated (record { id = codes "s1"; apps = codes "app" ∷ [] }))
    × (authenticate
          (λ t. t)
          (bearer (codes "tok"))
          (rotate_token_cmd (λ t. t) (codes "new") 9 (codes "s1") one_server).1
        ≡ invalid_token)
rotate_token_switches_example =
    rotate_token_switches (λ t. t) (codes "new") (codes "tok") 9 (codes "s1") one_server
      home_server_row new_is_token tok_is_token one_id server_is_found new_is_fresh no_other_server
      refl

remove_server_ends_example :
    ((remove_server_cmd (codes "s1") one_server).0 ≡ removed (codes "s1"))
    × (authenticate (λ t. t) (bearer (codes "tok")) (remove_server_cmd (codes "s1") one_server).1
        ≡ (if count_servers (remove_server_cmd (codes "s1") one_server).1 == 0
            then dev_mode
            else invalid_token))
remove_server_ends_example =
    remove_server_ends (λ t. t) (codes "tok") (codes "s1") one_server home_server_row tok_is_token
      server_is_found no_other_server
