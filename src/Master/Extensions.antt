-- ===== src/Master/Extensions.antt =====
-- src/vaultmcp/master/extensions.py.
pub mod Tables
use vaultmcp.Prelude.{ℕ, ◌+◌}
use vaultmcp.Prelude.{Bool, false, not, ◌&&◌, ◌||◌, Option, none, some, List, [], ◌∷◌, ◌++◌}
use vaultmcp.Prelude.{leb, if◌then◌else◌}
use vaultmcp.Prelude.{◌==◌, nat_Eq, list_Eq, option_Eq}
use vaultmcp.Prelude.{length, find, any, all}
use vaultmcp.Prelude.{Result, ok, err, ◌>>=◌, ◌>>◌, guard}
use vaultmcp.Prelude.{Text, codes, partition, join}
use vaultmcp.Prelude.Regex.{
  Unicode, Regex, boundary, seq, run, is_lower, is_digit, matches_at, State, empty,
}
use vaultmcp.Master.Errors.{
  ToolError, validation_failed, bad_extension_name, bad_table_name, write_keyword, bad_column_type,
  bad_reference, no_columns, duplicate_column, two_primary_keys,
}

-- `[a-z0-9_]`
abbrev pub is_name_char : ℕ → Bool
is_name_char c = is_lower c || is_digit c || c == b'_'

-- `_IDENT_RE.fullmatch`: `[a-z][a-z0-9_]*`
unfoldable pub is_identifier : Text → Bool
is_identifier [] = false
is_identifier (c ∷ s) = is_lower c && all is_name_char s

unfoldable pub default_schema_prefix : Text → Text
default_schema_prefix name = codes "ext_" ++ name ++ codes "_"

unfoldable pub role_name_for : Text → Result ToolError Text
unfolding is_identifier
role_name_for name =
    if is_identifier name
    then ok (codes "vaultmcp_ext_" ++ name)
    else err (validation_failed (bad_extension_name name))

-- `ExtPolicy` of src/vaultmcp/shared/types.py.
pub record ExtPolicy : Type 0 where
  pub can_read_pages : Bool
  pub can_read_audit : Bool
  pub can_use_embeddings : Bool
  pub can_subscribe_events : Bool

abbrev pub granted : Bool → List Text → List Text
granted flag grants = if flag then grants else []

unfoldable pub grants_for_policy : Text → ExtPolicy → List Text
grants_for_policy role_name policy =
    (codes "GRANT USAGE ON SCHEMA public TO " ++ role_name)
      ∷ (codes "GRANT SELECT ON extensions TO " ++ role_name)
      ∷ granted policy.can_read_pages ((codes "GRANT SELECT ON pages TO " ++ role_name) ∷ [])
    ++ granted policy.can_read_audit ((codes "GRANT SELECT ON audit TO " ++ role_name) ∷ [])
    ++ granted policy.can_use_embeddings (
        (codes "GRANT SELECT, INSERT, UPDATE, DELETE ON embeddings TO " ++ role_name)
        ∷ (codes "GRANT SELECT, INSERT ON embedding_jobs TO " ++ role_name)
        ∷ (codes "GRANT USAGE ON SEQUENCE embedding_jobs_id_seq TO " ++ role_name)
        ∷ [])
    ++ granted policy.can_subscribe_events (
        (codes "GRANT SELECT, INSERT ON events TO " ++ role_name)
        ∷ (codes "GRANT USAGE ON SEQUENCE events_id_seq TO " ++ role_name)
        ∷ (codes "GRANT USAGE ON SEQUENCE global_version_seq TO " ++ role_name)
        ∷ [])

abbrev pub write_keywords : List Text
write_keywords =
    codes "insert"
    ∷ codes "update"
    ∷ codes "delete"
    ∷ codes "drop"
    ∷ codes "alter"
    ∷ codes "truncate"
    ∷ codes "create"
    ∷ codes "grant"
    ∷ codes "revoke"
    ∷ codes "comment"
    ∷ codes "copy"
    ∷ codes "vacuum"
    ∷ codes "cluster"
    ∷ codes "do"
    ∷ codes "set"
    ∷ []

-- The characters that `re.IGNORECASE` takes for a small letter: the two cases, and for `i`, `k` and
-- `s` the dotted and the dotless i, the Kelvin sign and the long s.
unfoldable pub same_letter : ℕ → ℕ → Bool
same_letter k c =
    c == k
    || c + 32 == k
    || (k == b'i' && (c == 0x130 || c == 0x131))
    || (k == b'k' && c == 0x212a)
    || (k == b's' && c == 0x17f)

abbrev pub lit_ignoring_case : Text → Regex
lit_ignoring_case [] = empty
lit_ignoring_case (k ∷ s) = seq (run (same_letter k) 1 (some 1)) (lit_ignoring_case s)

abbrev pub keyword_regex : Text → Regex
keyword_regex k = seq boundary (seq (lit_ignoring_case k) boundary)

module _ (u : Unicode) where
  abbrev keyword_at : State → Option Text
  keyword_at st = find (λ k. matches_at u (keyword_regex k) st) write_keywords

  -- The keyword of the leftmost match of the alternation.
  unfoldable pub find_keyword : Option ℕ → Text → Option Text
  unfolding matches_at same_letter
  find_keyword before [] = keyword_at (before, [])
  find_keyword before (c ∷ s) =
      let rest = find_keyword (some c) s in
      elim (keyword_at (before, c ∷ s)) [ some k ↦ some k | none ↦ rest ]

  unfoldable pub assert_query_is_readonly : Text → Result ToolError (Unit {0})
  unfolding find_keyword
  assert_query_is_readonly sql = elim (find_keyword none sql) [
    | none ↦ ok tt
    | some k ↦ err (validation_failed (write_keyword k))
  ]

unfoldable pub assert_valid_extension_name : Text → Result ToolError (Unit {0})
unfolding is_identifier
assert_valid_extension_name name =
    if is_identifier name then ok tt else err (validation_failed (bad_extension_name name))

-- `ExtColumnSpec` of src/vaultmcp/shared/types.py.
pub record ExtColumnSpec : Type 0 where
  pub name : Text
  pub column_type : Text
  pub primary_key : Bool
  pub not_null : Bool
  pub default : Option Text
  pub references : Option Text

abbrev pub ext_column_types : List Text
ext_column_types =
    codes "text"
    ∷ codes "int"
    ∷ codes "bigint"
    ∷ codes "smallint"
    ∷ codes "boolean"
    ∷ codes "uuid"
    ∷ codes "timestamptz"
    ∷ codes "date"
    ∷ codes "jsonb"
    ∷ codes "numeric"
    ∷ codes "real"
    ∷ codes "double precision"
    ∷ []

-- `[a-z_][a-z0-9_]*`
abbrev pub is_sql_name : Text → Bool
is_sql_name [] = false
is_sql_name (c ∷ s) = (is_lower c || c == b'_') && all is_name_char s

-- `[a-z_][a-z0-9_]*\([a-z_][a-z0-9_]*\)`: a name has no parenthesis, so the first one ends it.
unfoldable pub is_reference : Text → Bool
is_reference t = elim (partition b'(' t) [
  | none ↦ false
  | some (table, rest) ↦ elim (partition b')' rest) [
    | some (column, []) ↦ is_sql_name table && is_sql_name column
    | _ ↦ false
  ]
]

abbrev pub clause : Bool → Text → List Text
clause flag t = if flag then t ∷ [] else []

abbrev default_clause : Option Text → List Text
default_clause none = []
default_clause (some d) = (codes "DEFAULT " ++ d) ∷ []

unfoldable pub reference_clause : Text → Option Text → Result ToolError (List Text)
unfolding is_reference
reference_clause name none = ok []
reference_clause name (some r) =
    if is_reference r
    then ok ((codes "REFERENCES " ++ r) ∷ [])
    else err (validation_failed (bad_reference name))

unfoldable pub column_spec_to_sql : ExtColumnSpec → Result ToolError Text
unfolding reference_clause
column_spec_to_sql col = do
  guard (any (λ t. t == col.column_type) ext_column_types)
      (validation_failed (bad_column_type col.name col.column_type))
  references ← reference_clause col.name col.references
  ok (
      join b' ' (
        col.name ∷ col.column_type ∷ clause col.primary_key (codes "PRIMARY KEY")
        ++ clause (col.not_null && not col.primary_key) (codes "NOT NULL")
        ++ default_clause col.default
        ++ references))

-- The loop over the columns, with the names seen and the primary keys counted.
unfoldable pub check_columns : List Text → ℕ → List ExtColumnSpec → Result ToolError ℕ
check_columns seen primary_keys [] = ok primary_keys
check_columns seen primary_keys (c ∷ cs) =
    let rest =
      check_columns (c.name ∷ seen) (if c.primary_key then primary_keys + 1 else primary_keys) cs in
    if any (λ n. n == c.name) seen then err (validation_failed (duplicate_column c.name)) else rest

unfoldable pub columns_to_sql : List ExtColumnSpec → Result ToolError (List Text)
unfolding column_spec_to_sql
columns_to_sql [] = ok []
columns_to_sql (c ∷ cs) = do t ← column_spec_to_sql c; ts ← columns_to_sql cs; ok (t ∷ ts)

-- `",\n    ".join(..)`
abbrev pub join_columns : List Text → Text
join_columns [] = []
join_columns (t ∷ []) = t
join_columns (t ∷ s ∷ ts) = t ++ (44 ∷ 10 ∷ codes "    ") ++ join_columns (s ∷ ts)

unfoldable pub build_create_table_sql :
    Text → Text → List ExtColumnSpec → Result ToolError (Text × Text)
unfolding is_identifier check_columns columns_to_sql
build_create_table_sql schema_prefix table_name columns = do
  guard (is_identifier table_name) (validation_failed (bad_table_name table_name))
  guard (not (length columns == 0)) (validation_failed no_columns)
  primary_keys ← check_columns [] 0 columns
  guard (leb primary_keys 1) (validation_failed two_primary_keys)
  parts ← columns_to_sql columns
  let full = schema_prefix ++ table_name
  ok (
    codes "CREATE TABLE IF NOT EXISTS "
        ++ full
        ++ codes " ("
        ++ (10 ∷ codes "    ")
        ++ join_columns parts
        ++ (10 ∷ codes ")"),
    full,
  )
