-- ===== src/Master/Db/Extensions.antt =====
-- The extension operations of src/vaultmcp/master/db.py that touch the tables modelled here:
-- `ext_register`, `ext_get`, `ext_list`, `ext_deregister`, `ext_create_table`, `ext_emit_event` and
-- `ext_enqueue_embedding`.
pub mod Removal
use vaultmcp.Prelude.{ℕ, suc, ◌+◌}
use vaultmcp.Prelude.{Bool, true, false, not, ◌&&◌, ◌||◌, Option, none, some, List, [], ◌∷◌, ◌++◌}
use vaultmcp.Prelude.{if◌then◌else◌}
use vaultmcp.Prelude.{◌==◌, nat_Eq, list_Eq, option_Eq}
use vaultmcp.Prelude.{length, select, any}
use vaultmcp.Prelude.{sort_by}
use vaultmcp.Prelude.{Text, codes, text_le}
use vaultmcp.Shared.Value.{Value, end}
use vaultmcp.Master.Db.Rows.{Db, ExtensionRow, PageRow}
use vaultmcp.Master.Db.Tables.{lookup, upsert, remove}
use vaultmcp.Master.Db.Like.{like}
use vaultmcp.Master.Db.Pages.{get_page, page_key, insert_event, insert_job}

abbrev pub extension_key : ExtensionRow → Text
extension_key e = e.name

unfoldable pub ext_get : Text → Db → Option ExtensionRow
unfolding lookup
ext_get name db = lookup extension_key name db.extensions

-- What `ext_register` gives: the new row, nothing if the name is taken, or the `UniqueViolation` of
-- `schema_prefix` or `role_name`, which rolls the transaction back.
pub data Registered : Type 0 where
  registered : ExtensionRow → Registered
  name_taken : Registered
  not_unique : Registered

abbrev clashes : ExtensionRow → ExtensionRow → Bool
clashes new e = e.schema_prefix == new.schema_prefix || e.role_name == new.role_name

-- The GRANT statements only change privileges, which the tables do not hold.
unfoldable pub ext_register : ℕ → Text → Text → Text → List Text → Value → Db → Registered × Db
unfolding ext_get
ext_register now name schema_prefix role_name owners policy db =
    let row : ExtensionRow = record {
      name = name;
      schema_prefix = schema_prefix;
      role_name = role_name;
      owners = owners;
      policy = policy;
      schema_version = 1;
      created_at = now;
    } in
    elim (ext_get name db) [
      | some e ↦ (name_taken, db)
      | none ↦ if any (clashes row) db.extensions then (not_unique, db) else (
        registered row,
        record db {
          extensions = db.extensions ++ row ∷ [];
          roles =
              if any (λ r. r == role_name) db.roles then db.roles else db.roles ++ role_name ∷ [];
        },
      )
    ]

-- `ORDER BY name`
unfoldable pub extension_before : ExtensionRow → ExtensionRow → Bool
extension_before a b = text_le a.name b.name

unfoldable pub ext_list : Db → List ExtensionRow
unfolding sort_by extension_before
ext_list db = sort_by extension_before db.extensions

pub record Report : Type 0 where
  pub name : Text
  pub tables_dropped : ℕ
  pub pages_dropped : ℕ
  pub role_dropped : Bool

-- `ext/<name>/%`
abbrev pub namespace_pattern : Text → Text
namespace_pattern name = codes "ext/" ++ name ++ codes "/%"

-- The pages of the namespace go, and with them what refers to them: the embeddings, by the foreign key.
abbrev pub drop_pages : Text → Db → Db
drop_pages pattern db = record db {
  pages = select (λ p. not (like p.path pattern)) db.pages;
  embeddings = select (λ e. not (like e.path pattern)) db.embeddings;
}

abbrev pub drop_tables : Text → Db → Db
drop_tables pattern db = record db { tables = select (λ t. not (like t pattern)) db.tables }

abbrev pub drop_role : Text → Db → Db
drop_role role_name db = record db { roles = select (λ r. not (r == role_name)) db.roles }

-- `DROP TABLE .. CASCADE` takes the table `extensions`, so that the last DELETE raises. A prefix begins
-- with `ext_`, so no other table of the schema can match.
abbrev pub takes_extensions : Text → Bool
takes_extensions prefixed = like (codes "extensions") prefixed

-- `drops` tells whether Postgres lets the GRANT, `DROP OWNED` and `DROP ROLE` through. If not, the
-- exception is caught, but the transaction is aborted and the statements behind it raise. Without a
-- report an exception has rolled everything back.
unfoldable pub deregister_found :
    Bool → Text → Text → Text → Option ExtensionRow → Db → Option Report × Db
unfolding like remove
deregister_found drops name schema_prefix role_name none db =
    (some (record { name = name; tables_dropped = 0; pages_dropped = 0; role_dropped = false }), db)
deregister_found drops name schema_prefix role_name (some e) db =
    let owned = namespace_pattern name in
    let prefixed = schema_prefix ++ codes "%" in
    let role_exists = any (λ r. r == role_name) db.roles in
    let db₁ = drop_role role_name (drop_tables prefixed (drop_pages owned db)) in
    if role_exists && not drops
    then (none, db)
    else if takes_extensions prefixed
    then (none, db)
    else (
      some (record {
        name = name;
        tables_dropped = length (select (λ t. like t prefixed) db.tables);
        pages_dropped = length (select (λ (p : PageRow). like p.path owned) db.pages);
        role_dropped = role_exists;
      }),
      record db₁ { extensions = remove extension_key name db₁.extensions },
    )

unfoldable pub ext_deregister : Bool → Text → Text → Text → Db → Option Report × Db
unfolding ext_get deregister_found
ext_deregister drops name schema_prefix role_name db =
    deregister_found drops name schema_prefix role_name (ext_get name db) db

-- `CREATE TABLE IF NOT EXISTS`; the GRANT changes privileges only.
unfoldable pub ext_create_table : Text → Db → Db
ext_create_table full_table_name db =
    if any (λ t. t == full_table_name) db.tables
    then db
    else record db { tables = db.tables ++ full_table_name ∷ [] }

-- `permitted` tells whether the role may use the sequence and insert into `events`, which one policy
-- flag grants together; if not, Postgres raises at `nextval` and nothing changes.
unfoldable pub ext_emit_event : ℕ → Bool → Text → Option Text → Value → Db → Option (ℕ × ℕ) × Db
unfolding insert_event
ext_emit_event now permitted event_type path payload db =
    let gv = suc db.global_version_seq in
    let db₁ = record db { global_version_seq = gv } in
    if permitted
    then (some (suc db.events_id_seq, gv), insert_event now event_type path gv payload db₁)
    else (none, db)

abbrev pub ext_page : ℕ → Text → Text → ℕ → ℕ → Option PageRow → PageRow
ext_page now path content version gv none = record {
  path = path;
  content = content;
  version = version;
  global_version = gv;
  metadata = end;
  page_type = codes "shared";
  owners = [];
  updated = now;
  last_writer_server = codes "ext";
  last_writer_app = codes "ext";
  last_writer_session = [];
}
ext_page now path content version gv (some p) = record p {
  content = content;
  version = version;
  global_version = gv;
  updated = now;
}

abbrev pub next_version : Option PageRow → ℕ
next_version none = 1
next_version (some p) = p.version + 1

unfoldable pub ext_enqueue_embedding : ℕ → Text → Text → Db → Bool × Db
unfolding get_page insert_job upsert
ext_enqueue_embedding now path content db =
    let gv = suc db.global_version_seq in
    let existing = get_page path db in
    let version = next_version existing in
    let db₁ = record db {
      global_version_seq = gv;
      pages = upsert page_key (ext_page now path content version gv existing) db.pages;
    } in
    (true, insert_job now path version db₁)
