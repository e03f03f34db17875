-- ===== src/Tests/Views.antt =====
-- The searches, the dashboard, extension queries and the MCP transports at concrete inputs.
use vaultmcp.Prelude.{
  ℕ, ◌-◌, ◌≡◌, refl, true, leb, Option, none, some, [], ◌∷◌, ◌==◌, ok, Text, codes, length,
}
use vaultmcp.Shared.Value.{text}
use vaultmcp.Master.Validation.{
  default_max_file_size_bytes, validate_write_content, parsed, check_size, check_encoding,
  check_frontmatter, check_metadata,
}
use vaultmcp.Master.Validation.Secrets.{check_no_secrets, secret_patterns}
use vaultmcp.Shared.Frontmatter.{normalize}
use vaultmcp.Shared.Value.{Fields}
use vaultmcp.Master.Extensions.{assert_query_is_readonly}
use vaultmcp.Master.Db.Rows.{Db, PageRow}
use vaultmcp.Master.Db.Pages.{get_page}
use vaultmcp.Master.Db.Extensions.{ext_register}
use vaultmcp.Master.Db.Ranked.{Ranker}
use vaultmcp.Master.Server.{wiki_write, valid_arguments}
use vaultmcp.Master.Mcp.{call_mcp_tool}
use vaultmcp.Master.Mcp.Open.{mcp_write_is_stored}
use vaultmcp.Master.ExtSql.{Sql, QueryInput, QueryOutput, handle_ext_query}
use vaultmcp.Master.ExtSql.Limits.{IsAnswer, handle_ext_query_lem}
use vaultmcp.Master.Dashboard.{DashboardConfig, AuditQuery, request, audit, audit_page}
use vaultmcp.Master.Dashboard.AuditPage.{audit_rows, request-served}
use vaultmcp.Shared.FilePath.{Parts}
use vaultmcp.Master.Db.Rows.{fresh}
use vaultmcp.Master.Db.Pages.Write.{version_of}
use vaultmcp.Master.Db.Pages.{write_page}
use vaultmcp.Master.Db.Servers.{add_server}
use vaultmcp.Master.Db.Audit.{list_audit}
use vaultmcp.Master.Dashboard.{Page, basic_auth, audit_entries}
use vaultmcp.Prelude.{nat_Eq, list_Eq}
use vaultmcp.Tests.Data.{
  ascii, home_codec, home_content, home_metadata, home_input, test_backend, test_env, test_world,
  one_page,
}

home_arguments : valid_arguments (wiki_write home_input) ≡ true
unfolding valid_arguments
home_arguments = refl

home_passes :
    validate_write_content ascii home_codec home_content default_max_file_size_bytes ≡ ok tt
unfolding validate_write_content check_size check_encoding check_frontmatter parsed check_metadata
    check_no_secrets secret_patterns
home_passes = refl

abbrev wiki : Parts
wiki = codes "wiki" ∷ []

abbrev home_fields : Fields
home_fields = normalize home_metadata

home_parses : parsed home_codec home_content ≡ ok (home_fields, codes "Hi")
unfolding parsed normalize
home_parses = refl

nothing_there : none ≡ version_of (get_page (codes "a.md") test_world.db)
unfolding get_page add_server
nothing_there = refl

mcp_write_is_stored_example :
    (p : PageRow) × (get_page
        (codes "a.md")
        (call_mcp_tool test_backend test_env wiki (wiki_write home_input) test_world).1.db
      ≡ some p)
    × (p.content ≡ home_content)
    × (p.last_writer_server ≡ codes "s1")
mcp_write_is_stored_example =
    mcp_write_is_stored test_backend test_env wiki home_input test_world home_fields (codes "Hi")
      home_arguments home_passes home_parses refl nothing_there

abbrev crm_tables : Db
crm_tables =
    (ext_register 1 (codes "crm") (codes "ext_crm_") (codes "vaultmcp_ext_crm") [] (text [])
      fresh).1

-- Every query gives two rows of one column.
abbrev two_rows : Sql
two_rows = record {
  fetch = λ role sql params db.
      some (((codes "n", text (codes "1")) ∷ []) ∷ ((codes "n", text (codes "2")) ∷ []) ∷ []);
  execute = λ role sql params db. none;
}

abbrev select_one : QueryInput
select_one = record { extension = codes "crm"; sql = codes "SELECT n"; params = []; limit = 1 }

abbrev first_row : QueryOutput
first_row = record {
  columns = codes "n" ∷ [];
  rows = (text (codes "1") ∷ []) ∷ [];
  row_count = 1;
  truncated = true;
}

query_is_cut : handle_ext_query ascii two_rows select_one crm_tables ≡ ok first_row
unfolding handle_ext_query ext_register assert_query_is_readonly
query_is_cut = refl

handle_ext_query_lem_example : IsAnswer ascii two_rows select_one crm_tables first_row
handle_ext_query_lem_example =
    handle_ext_query_lem ascii two_rows select_one crm_tables first_row query_is_cut

-- Every page matches, by its version.
abbrev by_version : Ranker
by_version = record {
  Score = ℕ;
  text_rank = λ query p. some p.version;
  headline = λ query p. query;
  distance = λ a b. length a;
  similarity = λ d. 100 - d;
  at_most = λ a b. leb a b;
  same = λ a b. a == b;
}

abbrev guarded : DashboardConfig
guarded = record { username = codes "ops"; password = some (codes "pw") }

abbrev succeeded_rows : AuditQuery
succeeded_rows = record { path = none; server_id = none; app = none; outcome = some (codes "ok") }

abbrev given_credentials : Option (Text × Text)
given_credentials = some (codes "ops", codes "pw")

abbrev shown_rows : Page by_version
shown_rows = audit_page (audit_rows succeeded_rows one_page)

audit_is_shown :
    request by_version guarded given_credentials none (audit succeeded_rows) one_page
    ≡ ok shown_rows
unfolding request basic_auth audit_entries list_audit write_page
audit_is_shown = refl

request-served_example : given_credentials ≡ some (guarded.username, codes "pw")
request-served_example =
    request-served by_version guarded given_credentials none (audit succeeded_rows) one_page
      (codes "pw") shown_rows refl audit_is_shown
