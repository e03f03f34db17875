-- ===== src/Master/ExtSql/Limits.antt =====
-- The bounds of an answer to `ext.query`.
use vaultmcp.Prelude.{◌<◌, min}
use vaultmcp.Prelude.{◌≡◌, refl, ◌∙◌, ◌↔◌, inl, inr}
use vaultmcp.Prelude.{true, Option, none, some, List, [], ◌∷◌}
use vaultmcp.Prelude.{map, arith, ltb, Option-cases}
use vaultmcp.Prelude.{nat_Eq, list_Eq, option_Eq}
use vaultmcp.Prelude.{length, take, length-take}
use vaultmcp.Prelude.{ok, bind-ok}
use vaultmcp.Prelude.{Text}
use vaultmcp.Prelude.{subst}
use vaultmcp.Prelude.Regex.{Unicode}
use vaultmcp.Master.Extensions.{assert_query_is_readonly}
use vaultmcp.Master.Db.Rows.{Db, ExtensionRow}
use vaultmcp.Master.Db.Extensions.{ext_get}
use vaultmcp.Master.ExtSql.{
  Sql, SqlRow, QueryInput, QueryOutput, columns_of, values_of, ext_query_as_role, query_output,
  found_extension, handle_ext_query,
}

length-values : (rows : List SqlRow) → length (map values_of rows) ≡ length rows
length-values [] = refl
length-values (r ∷ rows) = omega (arith, length-values rows)

-- What the answer says of the rows that Postgres gave.
abbrev pub Answers : QueryInput → List SqlRow → QueryOutput → Type 0
Answers inp rows out =
    (out.rows ≡ map values_of (take inp.limit rows))
    × (out.row_count ≡ min inp.limit (length rows))
    × ((out.truncated ≡ true) ↔ (inp.limit < length rows))

module _ (unicode : Unicode) (pg : Sql) (inp : QueryInput) (db : Db) (out : QueryOutput) where
  -- An answer comes from a registered extension, for SQL without a write keyword, under the
  -- extension's role.
  abbrev pub IsAnswer : Type 0
  IsAnswer =
      (ext : ExtensionRow) × (rows : List SqlRow) × (ext_get inp.extension db ≡ some ext)
      × (assert_query_is_readonly unicode inp.sql ≡ ok tt)
      × (pg.fetch ext.role_name inp.sql inp.params db ≡ some rows)
      × Answers inp rows out

  answers :
      (role_name : Text)
      → query_output (ext_query_as_role pg inp.sql inp.params inp.limit role_name db) ≡ ok out
      → (rows : List SqlRow) × (pg.fetch role_name inp.sql inp.params db ≡ some rows)
        × Answers inp rows out
  unfolding ext_query_as_role
  answers role_name h = elim (Option-cases (pg.fetch role_name inp.sql inp.params db)) [
    | inl q ↦ absurd (ground (arith, h, q))
    | inr (rows, q) ↦
        let built : record {
          columns = columns_of rows;
          rows = map values_of (take inp.limit rows);
          row_count = length (map values_of (take inp.limit rows));
          truncated = ltb inp.limit (length rows);
        }
            ≡ out =
          ground (arith, h, q) in
        (
          rows,
          q,
          subst (Answers inp rows) built (
            refl,
            length-values (take inp.limit rows) ∙ length-take inp.limit rows,
            ground arith,
          ),
        )
  ]

registered_as :
    (name : Text) (o : Option ExtensionRow) (ext : ExtensionRow)
    → found_extension name o ≡ ok ext
    → o ≡ some ext
registered_as name none ext h = cc
registered_as name (some e) ext h = ground (arith, h)

-- An answer to `ext.query` is of a registered extension, for SQL that passes the keyword screen, run
-- under that extension's role; it holds the first rows up to the limit, counts them, and says that it
-- is cut exactly when there were more.
pub handle_ext_query_lem :
    (unicode : Unicode) (pg : Sql) (inp : QueryInput) (db : Db) (out : QueryOutput)
    → handle_ext_query unicode pg inp db ≡ ok out
    → IsAnswer unicode pg inp db out
unfolding handle_ext_query
handle_ext_query_lem unicode pg inp db out h =
    let (ext, found, rest) =
      bind-ok (found_extension inp.extension (ext_get inp.extension db)) _ out h in
    let (u, screened, done) = bind-ok (assert_query_is_readonly unicode inp.sql) _ out rest in
    let (rows, fetched, told) = answers unicode pg inp db out ext.role_name done in
    (
      ext,
      rows,
      registered_as inp.extension (ext_get inp.extension db) ext found,
      screened,
      fetched,
      told,
    )
