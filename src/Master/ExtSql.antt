-- ===== src/Master/ExtSql.antt =====
-- `handle_ext_query` and `handle_ext_exec` of src/vaultmcp/master/tools.py, with `ext_query_as_role` and
-- `ext_exec_as_role` of src/vaultmcp/master/db.py. What Postgres makes of the SQL is `Sql`.
pub mod Limits
use vaultmcp.Prelude.{ℕ, zero, suc, ◌+◌, ◌-◌, ◌*◌, ◌/◌, ◌%◌, ◌^◌, ◌≤◌, ◌<◌, min, max, String}
use vaultmcp.Prelude.{◌≡◌, refl, sym, ap, ◌∙◌, fun_ext, ◌≢◌, ◌↔◌, ◌⊎◌, inl, inr}
use vaultmcp.Prelude.{Bool, true, false, not, ◌&&◌, ◌||◌, Option, none, some, List, [], ◌∷◌, ◌++◌}
use vaultmcp.Prelude.{
  map, reverse, arith, ltb, leb, nat_eq, if◌then◌else◌, Bool-cases, Option-cases,
}
use vaultmcp.Prelude.{
  Eq, ◌==◌, nat_Eq, list_Eq, option_Eq, list_eq_iff, option_eq_iff, nat_eq_iff, beq_refl,
}
use vaultmcp.Prelude.{
  length, take, drop, last?, select, find, any, all, All, length-append, length-take,
}
use vaultmcp.Prelude.{
  take_all, place, sort_by, Result, ok, err, ◌>>=◌, ◌>>◌, guard, bind-ok, Result-cases,
}
use vaultmcp.Prelude.{
  Text, codes, starts_with, is_space, lstrip, rstrip, strip, partition, split, join, text_le,
}
use vaultmcp.Prelude.{subst}
use vaultmcp.Prelude.Ints.{ℤ, pos, parse_int}
use vaultmcp.Prelude.Regex.{Unicode}
use vaultmcp.Shared.Value.{Value}
use vaultmcp.Master.Errors.{ToolError, not_found, internal}
use vaultmcp.Master.Extensions.{assert_query_is_readonly}
use vaultmcp.Master.Db.Rows.{Db, ExtensionRow}
use vaultmcp.Master.Db.Extensions.{ext_get}

-- A row of an answer: the columns with their values.
abbrev pub SqlRow : Type 0
SqlRow = List (Text × Value)

-- Postgres under `SET LOCAL ROLE`, from the role, the SQL and its parameters: the rows of a READ ONLY
-- transaction, which changes no table; and the status and the tables after a read-write one. `none`
-- is an exception, which rolls back.
pub record Sql : Type 0 where
  pub fetch : Text → Text → List Value → Db → Option (List SqlRow)
  pub execute : Text → Text → List Value → Db → Option (Text × Db)

pub record QueryInput : Type 0 where
  pub extension : Text
  pub sql : Text
  pub params : List Value
  pub limit : ℕ

pub record QueryOutput : Type 0 where
  pub columns : List Text
  pub rows : List (List Value)
  pub row_count : ℕ
  pub truncated : Bool

pub record ExecInput : Type 0 where
  pub extension : Text
  pub sql : Text
  pub params : List Value

abbrev pub columns_of : List SqlRow → List Text
columns_of [] = []
columns_of (r ∷ rows) = map (λ (column, value). column) r

abbrev pub values_of : SqlRow → List Value
values_of r = map (λ (column, value). value) r

unfoldable pub ext_query_as_role :
    Sql → Text → List Value → ℕ → Text → Db → Option (List Text × List (List Value) × Bool)
ext_query_as_role pg sql params limit role_name db = elim (pg.fetch role_name sql params db) [
  | none ↦ none
  | some rows ↦ some (columns_of rows, map values_of (take limit rows), ltb limit (length rows))
]

-- `int(status.rsplit(" ", 1)[-1])`, or 0 if that is no number.
unfoldable pub affected : Text → ℤ
unfolding parse_int
affected status = elim (last? (split b' ' status)) [
  | none ↦ pos 0
  | some word ↦ elim (parse_int word) [ none ↦ pos 0 | some n ↦ n ]
]

unfoldable pub ext_exec_as_role : Sql → Text → List Value → Text → Db → Option ℤ × Db
unfolding affected
ext_exec_as_role pg sql params role_name db = elim (pg.execute role_name sql params db) [
  | none ↦ (none, db)
  | some (status, db') ↦ (some (affected status), db')
]

abbrev pub query_output :
    Option (List Text × List (List Value) × Bool) → Result ToolError QueryOutput
query_output none = err internal
query_output (some (cols, rows, truncated)) =
    ok (record { columns = cols; rows = rows; row_count = length rows; truncated = truncated })

abbrev pub found_extension : Text → Option ExtensionRow → Result ToolError ExtensionRow
found_extension name none = err (not_found name)
found_extension name (some ext) = ok ext

unfoldable pub handle_ext_query : Unicode → Sql → QueryInput → Db → Result ToolError QueryOutput
unfolding ext_get assert_query_is_readonly ext_query_as_role
handle_ext_query unicode pg inp db = do
  ext ← found_extension inp.extension (ext_get inp.extension db)
  assert_query_is_readonly unicode inp.sql
  query_output (ext_query_as_role pg inp.sql inp.params inp.limit ext.role_name db)

abbrev pub exec_output : Option ℤ × Db → Result ToolError ℤ × Db
exec_output (none, db) = (err internal, db)
exec_output (some n, db) = (ok n, db)

unfoldable pub handle_ext_exec : Sql → ExecInput → Db → Result ToolError ℤ × Db
unfolding ext_get ext_exec_as_role
handle_ext_exec pg inp db = elim (ext_get inp.extension db) [
  | none ↦ (err (not_found inp.extension), db)
  | some ext ↦ exec_output (ext_exec_as_role pg inp.sql inp.params ext.role_name db)
]
