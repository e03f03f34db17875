-- ===== src/Tests/Access.antt =====
-- The handlers and the HTTP call at concrete requests.
use vaultmcp.Shared.FilePath.{temp_of}
use vaultmcp.Prelude.{◌≡◌, refl, Option, none, some, [], ◌∷◌, Text, codes, ok, err}
use vaultmcp.Prelude.{◌<◌, arith, ◌==◌, list_Eq, nat_Eq, if◌then◌else◌, true}
use vaultmcp.Master.Errors.{status, forbidden, other_server}
use vaultmcp.Master.Auth.{AuthenticatedServer, parse_bearer}
use vaultmcp.Master.Db.Servers.{add_server, find_server_by_token_hash, count_servers}
use vaultmcp.Master.Tools.{WriteOutput, handle_write, enforce_session_matches_server}
use vaultmcp.Master.Tools.Write.{IsStored, Unchanged, handle_write_refused, handle_write-IsStored}
use vaultmcp.Master.Server.{answered, failed, wrote, wiki_write, wiki_read, call_tool}
use vaultmcp.Master.Server.Access.{
  IsTokenOf, unknown_token_is_refused, accepted_write_is_authenticated,
}
use vaultmcp.Master.Validation.{
  validate_write_content, check_size, check_encoding, check_frontmatter, parsed, check_metadata,
}
use vaultmcp.Master.Validation.Secrets.{check_no_secrets, secret_patterns}
use vaultmcp.Master.Validation.Accepts.{IsAcceptable, validate_write_content-IsAcceptable}
use vaultmcp.Master.Render.{render_to_disk, rendered, render_stays_inside}
use vaultmcp.Shared.FilePath.{resolve, is_relative_to, file_at, Disk}
use vaultmcp.Tests.Data.{
  ascii, test_backend, home_codec, home_content, home_input, test_env, test_settings, test_world,
  one_server,
}

abbrev home_server : AuthenticatedServer
home_server = record { id = codes "s1"; apps = codes "app" ∷ [] }

abbrev home_output : WriteOutput
home_output = record { path = codes "a.md"; version = 1; global_version = 1; applied_at = 9 }

home_is_written :
    (handle_write test_env test_settings (some home_server) home_input test_world).0
    ≡ ok home_output
unfolding handle_write enforce_session_matches_server validate_write_content check_size
    check_encoding check_frontmatter parsed check_metadata check_no_secrets secret_patterns
    add_server
home_is_written = refl

handle_write-IsStored_example :
    IsStored test_env test_settings
      (some home_server)
      home_input
      test_world
      (handle_write test_env test_settings (some home_server) home_input test_world).1
      home_output
handle_write-IsStored_example =
    handle_write-IsStored test_env test_settings (some home_server) home_input test_world
      home_output home_is_written

abbrev stranger : AuthenticatedServer
stranger = record { id = codes "s2"; apps = codes "app" ∷ [] }

stranger_is_refused :
    (handle_write test_env test_settings (some stranger) home_input test_world).0
    ≡ err (forbidden (other_server (codes "s1") (codes "s2")))
unfolding handle_write enforce_session_matches_server
stranger_is_refused = refl

forbidden_is_403 : status (forbidden (other_server (codes "s1") (codes "s2"))) < 500
unfolding status
forbidden_is_403 = omega arith

handle_write_refused_example :
    Unchanged test_world
      (handle_write test_env test_settings (some stranger) home_input test_world).1
handle_write_refused_example =
    handle_write_refused test_env test_settings (some stranger) home_input test_world
      (forbidden (other_server (codes "s1") (codes "s2"))) stranger_is_refused forbidden_is_403

home_is_valid : validate_write_content ascii home_codec home_content 1000 ≡ ok tt
unfolding validate_write_content check_size check_encoding check_frontmatter parsed check_metadata
    check_no_secrets secret_patterns
home_is_valid = refl

validate_write_content-IsAcceptable_example : IsAcceptable ascii home_codec home_content 1000
validate_write_content-IsAcceptable_example =
    validate_write_content-IsAcceptable ascii home_codec home_content 1000 home_is_valid

abbrev home_header : Option Text
home_header = some (codes "Bearer tok")

one_server_counts : 0 < count_servers one_server
unfolding count_servers add_server
one_server_counts = omega arith

home_call :
    (call_tool test_backend
      (λ t. t)
      test_env
      test_settings
      home_header
      (wiki_write home_input)
      test_world).0
    ≡ answered (wrote home_output)
unfolding call_tool handle_write enforce_session_matches_server validate_write_content check_size
    check_encoding check_frontmatter parsed check_metadata check_no_secrets secret_patterns
    add_server
home_call = refl

accepted_write_is_authenticated_example : IsTokenOf (λ t. t) home_header one_server home_input
accepted_write_is_authenticated_example =
    accepted_write_is_authenticated test_backend (λ t. t) test_env test_settings home_header
      home_input test_world (wrote home_output) one_server_counts home_call

no_header :
    (token : Text)
    → parse_bearer none ≡ some token
    → find_server_by_token_hash token one_server ≡ none
unfolding parse_bearer
no_header token h = cc

unknown_token_is_refused_example :
    call_tool test_backend
      (λ t. t)
      test_env
      test_settings
      none
      (wiki_read (codes "a.md"))
      test_world
    ≡ (failed 401 none, test_world)
unknown_token_is_refused_example =
    unknown_token_is_refused test_backend (λ t. t) test_env test_settings none
      (wiki_read (codes "a.md")) test_world one_server_counts no_header

abbrev rendered_disk : Disk
rendered_disk = (codes "wiki" ∷ codes "a.md" ∷ [], codes "Hi") ∷ []

rendered_once :
    render_to_disk true (codes "wiki" ∷ []) (codes "a.md") (codes "Hi") [] ≡ rendered rendered_disk
unfolding render_to_disk
rendered_once = refl

render_stays_inside_example :
    (is_relative_to (resolve (codes "wiki" ∷ []) (codes "a.md")) (codes "wiki" ∷ []) ≡ true)
    × (file_at (codes "b.md" ∷ []) rendered_disk ≡ (
        if resolve (codes "wiki" ∷ []) (codes "a.md") == codes "b.md" ∷ []
        then some (codes "Hi")
        else file_at (codes "b.md" ∷ []) []))
unfolding temp_of resolve
render_stays_inside_example =
    render_stays_inside true (codes "wiki" ∷ []) (codes "a.md") (codes "Hi") [] rendered_disk
      (codes "b.md" ∷ []) rendered_once
