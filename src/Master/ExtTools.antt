-- ===== src/Master/ExtTools.antt =====
-- The handlers of the ext tools in src/vaultmcp/master/tools.py. `Postgres` tells what the role system
-- and the SQL of an extension decide.
use vaultmcp.Prelude.{ℕ}
use vaultmcp.Prelude.{Bool, false, Option, none, some, List, [], ◌∷◌, ◌++◌}
use vaultmcp.Prelude.{if◌then◌else◌}
use vaultmcp.Prelude.{◌==◌, nat_Eq, list_Eq, option_Eq}
use vaultmcp.Prelude.{length, last?}
use vaultmcp.Prelude.{Result, ok, err, ◌>>=◌, ◌>>◌, guard}
use vaultmcp.Prelude.{Text, codes, starts_with}
use vaultmcp.Shared.Value.{Value, text, bool, dict, field, end}
use vaultmcp.Master.Errors.{
  ToolError, not_found, validation_failed, internal, bad_prefix_end, bad_prefix_start,
  already_registered, prefixed_path,
}
use vaultmcp.Master.Extensions.{
  ExtPolicy, ExtColumnSpec, assert_valid_extension_name, default_schema_prefix, role_name_for,
  build_create_table_sql,
}
use vaultmcp.Master.Db.Rows.{Db, ExtensionRow}
use vaultmcp.Master.Db.Extensions.{
  Registered, registered, name_taken, not_unique, ext_register, ext_get, ext_list, ext_create_table,
  ext_enqueue_embedding, ext_emit_event, ext_deregister, Report,
}

pub record Postgres : Type 0 where
  pub creates : Bool
  pub drops : Bool
  pub emits : Bool

pub record RegisterInput : Type 0 where
  pub name : Text
  pub schema_prefix : Option Text
  pub owners : List Text
  pub policy : ExtPolicy

-- `policy.model_dump()`
abbrev pub policy_dict : ExtPolicy → Value
policy_dict p = dict (
    field (text (codes "can_read_pages")) (bool p.can_read_pages) (
      field (text (codes "can_read_audit")) (bool p.can_read_audit) (
        field (text (codes "can_use_embeddings")) (bool p.can_use_embeddings)
          (field (text (codes "can_subscribe_events")) (bool p.can_subscribe_events) end))))

-- `inp.schema_prefix or default_schema_prefix(inp.name)`
abbrev pub prefix_or_default : Text → Option Text → Text
prefix_or_default name none = default_schema_prefix name
prefix_or_default name (some []) = default_schema_prefix name
prefix_or_default name (some (c ∷ s)) = c ∷ s

-- The checks, with the prefix and the role that they let through.
unfoldable pub admit_extension : RegisterInput → Result ToolError (Text × Text)
unfolding assert_valid_extension_name default_schema_prefix role_name_for
admit_extension inp = do
  assert_valid_extension_name inp.name
  let prefix = prefix_or_default inp.name inp.schema_prefix
  guard (last? prefix == some b'_') (validation_failed (bad_prefix_end prefix))
  guard (starts_with prefix (codes "ext_")) (validation_failed (bad_prefix_start prefix))
  role_name ← role_name_for inp.name
  ok (prefix, role_name)

abbrev registration : Text → Registered → Result ToolError ExtensionRow
registration name (registered row) = ok row
registration name name_taken = err (validation_failed (already_registered name))
registration name not_unique = err internal

unfoldable pub handle_ext_register : ℕ → RegisterInput → Db → Result ToolError ExtensionRow × Db
unfolding admit_extension ext_register
handle_ext_register now inp db = elim (admit_extension inp) [
  | err e ↦ (err e, db)
  | ok (prefix, role_name) ↦
      let (r, db') =
        ext_register now inp.name prefix role_name inp.owners (policy_dict inp.policy) db in
      (registration inp.name r, db')
]

unfoldable pub handle_ext_list : Db → List ExtensionRow
unfolding ext_list
handle_ext_list db = ext_list db

abbrev require_extension : Text → Option ExtensionRow → Result ToolError ExtensionRow
require_extension name none = err (not_found name)
require_extension name (some e) = ok e

pub record DeclareInput : Type 0 where
  pub extension : Text
  pub name : Text
  pub columns : List ExtColumnSpec

unfoldable pub table_of : DeclareInput → Db → Result ToolError (Text × Text)
unfolding ext_get build_create_table_sql
table_of inp db = do
  ext ← require_extension inp.extension (ext_get inp.extension db)
  build_create_table_sql ext.schema_prefix inp.name inp.columns

-- The table's full name and the number of its columns.
unfoldable pub handle_ext_declare_table :
    Postgres → DeclareInput → Db → Result ToolError (Text × ℕ) × Db
unfolding table_of ext_create_table
handle_ext_declare_table pg inp db = elim (table_of inp db) [
  | err e ↦ (err e, db)
  | ok (sql, full_name) ↦
      if pg.creates
      then (ok (full_name, length inp.columns), ext_create_table full_name db)
      else (err internal, db)
]

-- `inp.rel_path.lstrip("/")`
unfoldable pub strip_slashes : Text → Text
strip_slashes [] = []
strip_slashes (c ∷ s) = let rest = strip_slashes s in if c == b'/' then rest else c ∷ s

abbrev pub ext_path : Text → Text → Text
ext_path extension rel = codes "ext/" ++ extension ++ codes "/" ++ rel

unfoldable pub handle_ext_embed : ℕ → Text → Text → Text → Db → Result ToolError (Text × Bool) × Db
unfolding ext_get strip_slashes ext_enqueue_embedding
handle_ext_embed now extension rel_path content db = elim (ext_get extension db) [
  | none ↦ (err (not_found extension), db)
  | some ext ↦
      let rel = strip_slashes rel_path in
      if starts_with rel (codes "ext/")
      then (err (validation_failed prefixed_path), db)
      else let (queued, db') = ext_enqueue_embedding now (ext_path extension rel) content db in
        (ok (ext_path extension rel, queued), db')
]

abbrev reported : Option Report × Db → Result ToolError Report × Db
reported (none, db) = (err internal, db)
reported (some report, db) = (ok report, db)

unfoldable pub handle_ext_deregister : Postgres → Text → Db → Result ToolError Report × Db
unfolding ext_get ext_deregister
handle_ext_deregister pg name db = elim (ext_get name db) [
  | none ↦
      (ok (record { name = name; tables_dropped = 0; pages_dropped = 0; role_dropped = false }), db)
  | some ext ↦ reported (ext_deregister pg.drops name ext.schema_prefix ext.role_name db)
]

abbrev pub namespaced : Text → Text → Text
namespaced extension event_type = codes "ext_" ++ extension ++ codes "_" ++ event_type

-- The id, the namespaced type and the global version of the event.
unfoldable pub handle_ext_emit_event :
    ℕ → Postgres → Text → Text → Option Text → Value → Db → Result ToolError (ℕ × Text × ℕ) × Db
unfolding ext_get ext_emit_event
handle_ext_emit_event now pg extension event_type path payload db = elim (ext_get extension db) [
  | none ↦ (err (not_found extension), db)
  | some ext ↦
      let kind = namespaced extension event_type in
      let (emitted, db') = ext_emit_event now pg.emits kind path payload db in
      (elim emitted [ none ↦ err internal | some (id, gv) ↦ ok (id, kind, gv) ], db')
]
