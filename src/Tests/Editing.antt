-- ===== src/Tests/Editing.antt =====
-- An edit in the vault and its flush, at a concrete file.
use vaultmcp.Shared.FilePath.{read_text}
use vaultmcp.Prelude.Texts.{universal_newlines}
use vaultmcp.Prelude.{◌≡◌, refl, ◌⊎◌, ◌≢◌, none, [], ◌∷◌, codes, ok, err, true, list_Eq, nat_Eq}
use vaultmcp.Shared.Value.{Fields}
use vaultmcp.Shared.Frontmatter.{normalize}
use vaultmcp.Shared.FilePath.{Parts, resolve, is_relative_to}
use vaultmcp.Master.Errors.{render_failed}
use vaultmcp.Master.Validation.{
  validate_write_content, check_size, check_encoding, check_frontmatter, parsed, check_metadata,
}
use vaultmcp.Master.Validation.Secrets.{check_no_secrets, secret_patterns}
use vaultmcp.Master.Db.Servers.{add_server}
use vaultmcp.Master.Tools.{WriteOutput, handle_write, admit_write, enforce_session_matches_server}
use vaultmcp.Agent.Queue.{Session}
use vaultmcp.Agent.VersionCache.{new_cache, get_version}
use vaultmcp.Agent.Mirror.{Agent}
use vaultmcp.Agent.Watcher.{Moment}
use vaultmcp.Agent.Watcher.Flush.{flush}
use vaultmcp.Editing.{write_request, master_answers}
use vaultmcp.Editing.Settled.{Agrees, IsEmptied, flush_settles}
use vaultmcp.Tests.Data.{home_content, home_metadata, test_env, test_settings, test_world}

abbrev vault : Parts
vault = codes "vault" ∷ []

abbrev edited_file : Parts
edited_file = codes "vault" ∷ codes "a.md" ∷ []

abbrev editor : Agent
editor = record {
  cache = new_cache;
  queue = record { pending = []; failed = [] };
  suppressed = [];
  files = (edited_file, home_content) ∷ [];
}

abbrev home_session : Session
home_session = record {
  server_id = codes "s1";
  app = codes "app";
  agent_model = codes "m";
  session_id = [];
}

abbrev first_moment : Moment
first_moment = record { now = 10; id = codes "w1"; timestamp = codes "t"; works = true }

abbrev edited_fields : Fields
edited_fields = normalize home_metadata

edit_is_inside : is_relative_to edited_file vault ≡ true
unfolding is_relative_to
edit_is_inside = refl

edit_is_its_page : resolve vault (codes "a.md") ≡ edited_file
unfolding resolve
edit_is_its_page = refl

edit_is_admitted :
    admit_write test_env test_settings none
      (write_request home_session (codes "a.md") home_content none)
    ≡ ok edited_fields
unfolding admit_write enforce_session_matches_server validate_write_content check_size
    check_encoding check_frontmatter parsed check_metadata check_no_secrets secret_patterns
    normalize
edit_is_admitted = refl

abbrev edit_output : WriteOutput
edit_output = record { path = codes "a.md"; version = 1; global_version = 1; applied_at = 9 }

edit_is_written :
    (handle_write test_env test_settings none
      (write_request home_session (codes "a.md") home_content none)
      test_world).0
    ≡ ok edit_output
unfolding handle_write enforce_session_matches_server validate_write_content check_size
    check_encoding check_frontmatter parsed check_metadata check_no_secrets secret_patterns
    add_server
edit_is_written = refl

edit_is_rendered :
    (handle_write test_env test_settings none
      (write_request home_session (codes "a.md") home_content none)
      test_world).0
    ≢ err render_failed
unfolding handle_write enforce_session_matches_server validate_write_content check_size
    check_encoding check_frontmatter parsed check_metadata check_no_secrets secret_patterns
    add_server
edit_is_rendered e = cc

flush_settles_example :
    let w =
      (handle_write test_env test_settings none
        (write_request home_session (codes "a.md") home_content none)
        test_world).1 in
    let b =
      (flush first_moment vault home_session
        (master_answers test_env test_settings none test_world home_session)
        edited_file
        []
        editor).1 in
    Agrees (codes "a.md") edited_file w.db b
    ⊎ (IsEmptied (codes "a.md") edited_file w.db b × (get_version (codes "a.md") new_cache ≢ none))
unfolding get_version read_text universal_newlines
flush_settles_example =
    flush_settles test_env test_settings none test_world edited_fields first_moment vault
      home_session edited_file [] editor home_content refl edit_is_inside edit_is_its_page
      edit_is_admitted refl edit_is_rendered refl
