-- ===== src/Tests/Extensions.antt =====
-- The ownership rules, and the extensions' tables and pages, at concrete names.
use vaultmcp.Master.Db.Extensions.{Report}
use vaultmcp.Prelude.{
  ◌≡◌, refl, none, some, [], ◌∷◌, ◌++◌, Text, codes, map, ok, ◌≤◌, ◌≢◌, any, ◌==◌, list_Eq, nat_Eq,
  true, false,
}
use vaultmcp.Prelude.{if◌then◌else◌, starts_with, err}
use vaultmcp.Master.Errors.{forbidden, human_only}
use vaultmcp.Master.Ownership.{check_write}
use vaultmcp.Master.Ownership.Subtrees.{human_only_under, check_write-subtree}
use vaultmcp.Shared.Value.{end, dict}
use vaultmcp.Master.Db.Rows.{Db, ExtensionRow, fresh}
use vaultmcp.Master.Db.Pages.{get_page}
use vaultmcp.Master.Db.Extensions.{
  ext_get, ext_deregister, ext_register, ext_create_table, ext_enqueue_embedding,
}
use vaultmcp.Master.Db.Extensions.Removal.{removal_drops_siblings, removal_deletes_lookalikes}
use vaultmcp.Master.Extensions.{
  ExtColumnSpec, build_create_table_sql, is_identifier, default_schema_prefix,
}
use vaultmcp.Master.Extensions.Tables.{primary_keys, Distinct, build_create_table_sql_lem}

abbrev key_column : ExtColumnSpec
key_column = record {
  name = codes "id";
  column_type = codes "int";
  primary_key = true;
  not_null = false;
  default = none;
  references = none;
}

abbrev notes_sql : Text
notes_sql =
    codes "CREATE TABLE IF NOT EXISTS ext_a_notes ("
    ++ (10 ∷ codes "    id int PRIMARY KEY")
    ++ (10 ∷ codes ")")

notes_are_built :
    build_create_table_sql (codes "ext_a_") (codes "notes") (key_column ∷ [])
    ≡ ok (notes_sql, codes "ext_a_notes")
unfolding build_create_table_sql
notes_are_built = refl

build_create_table_sql_lem_example :
    (is_identifier (codes "notes") ≡ true)
    × (key_column ∷ [] ≢ [])
    × Distinct (map (λ (c : ExtColumnSpec). c.name) (key_column ∷ []))
    × (primary_keys (key_column ∷ []) ≤ 1)
    × (codes "ext_a_notes" ≡ codes "ext_a_" ++ codes "notes")
build_create_table_sql_lem_example =
    build_create_table_sql_lem (codes "ext_a_") (codes "notes") (key_column ∷ []) notes_sql
      (codes "ext_a_notes") notes_are_built

abbrev a_b : ExtensionRow
a_b = record {
  name = codes "a_b";
  schema_prefix = codes "ext_a_b_";
  role_name = codes "vaultmcp_ext_a_b";
  owners = [];
  policy = dict end;
  schema_version = 1;
  created_at = 1;
}

-- The extension `a_b`, a table of `a_b_c` and a page of `axb`.
abbrev extended : Db
extended =
    (ext_enqueue_embedding 2 (codes "ext/axb/p") (codes "P") (
      ext_create_table (codes "ext_a_b_c_t")
        (ext_register 1 (codes "a_b") (codes "ext_a_b_") (codes "vaultmcp_ext_a_b") [] (dict end)
          fresh).1)).1

a_b_is_there : ext_get (codes "a_b") extended ≡ some a_b
unfolding ext_get ext_enqueue_embedding ext_create_table ext_register
a_b_is_there = refl

a_b_is_identifier : is_identifier (codes "a_b") ≡ true
unfolding is_identifier
a_b_is_identifier = refl

abbrev removal_report : Report
removal_report = record {
  name = codes "a_b";
  tables_dropped = 1;
  pages_dropped = 1;
  role_dropped = true;
}

siblings_are_removed :
    (ext_deregister true (codes "a_b") (codes "ext_a_b_") (codes "vaultmcp_ext_a_b") extended).0
    ≡ some removal_report
unfolding ext_deregister ext_get ext_enqueue_embedding ext_create_table ext_register
siblings_are_removed = refl

removal_drops_siblings_example :
    any
      (λ x. x == default_schema_prefix (codes "a_b_c") ++ codes "t")
      (ext_deregister true
        (codes "a_b")
        (default_schema_prefix (codes "a_b"))
        (codes "vaultmcp_ext_a_b")
        extended).1.tables
    ≡ false
unfolding default_schema_prefix
removal_drops_siblings_example =
    removal_drops_siblings true (codes "a_b") (codes "c") (codes "t") (codes "vaultmcp_ext_a_b")
      extended a_b removal_report a_b_is_identifier a_b_is_there siblings_are_removed

removal_deletes_lookalikes_example :
    get_page
      (codes "ext/axb/p")
      (ext_deregister true (codes "a_b") (codes "ext_a_b_") (codes "vaultmcp_ext_a_b") extended).1
    ≡ none
removal_deletes_lookalikes_example =
    removal_deletes_lookalikes true (codes "a_b") (codes "axb") (codes "p") (codes "ext_a_b_")
      (codes "vaultmcp_ext_a_b") extended a_b removal_report a_b_is_identifier refl a_b_is_there
      siblings_are_removed

-- Before the removal the page and the table are there.
axb_was_there :
    (any (λ x. x == codes "ext_a_b_c_t") extended.tables ≡ true)
    × (get_page (codes "ext/axb/p") extended ≢ none)
unfolding get_page ext_enqueue_embedding ext_create_table ext_register
axb_was_there = (refl, λ e. cc)

check_write-subtree_example :
    check_write (human_only_under (codes "a/") ∷ []) (codes "a/b.md") (codes "app") ≡ (
      if starts_with (codes "a/b.md") (codes "a/")
      then err (forbidden (human_only (codes "a/b.md") (codes "a/" ++ codes "**")))
      else check_write [] (codes "a/b.md") (codes "app"))
check_write-subtree_example =
    check_write-subtree (codes "a/") (codes "a/b.md") (codes "app") [] refl
