-- ===== src/Master/Extensions/Tables.antt =====
-- What the tables that an extension creates look like, and which tables its removal drops.
use vaultmcp.Prelude.{ℕ, suc, ◌+◌, ◌≤◌}
use vaultmcp.Prelude.{◌≡◌, refl, sym, ap, ◌≢◌}
use vaultmcp.Prelude.{Bool, true, false, not, ◌||◌, List, [], ◌∷◌, ◌++◌}
use vaultmcp.Prelude.{map, arith, leb, if◌then◌else◌}
use vaultmcp.Prelude.{◌==◌, nat_Eq, list_Eq, option_Eq, list_eq_iff}
use vaultmcp.Prelude.{length, any, All}
use vaultmcp.Prelude.{Result, ok, err, ◌>>=◌, ◌>>◌, guard}
use vaultmcp.Prelude.{Text}
use vaultmcp.Master.Db.Tables.Keys.{All-mono}
use vaultmcp.Master.Errors.{ToolError}
use vaultmcp.Master.Extensions.{
  ExtColumnSpec, build_create_table_sql, check_columns, is_identifier, columns_to_sql,
}

abbrev pub primary_keys : List ExtColumnSpec → ℕ
primary_keys [] = 0
primary_keys (c ∷ cs) = if c.primary_key then suc (primary_keys cs) else primary_keys cs

-- No name stands twice.
abbrev pub Distinct : List Text → Type 0
Distinct [] = Unit
Distinct (n ∷ ns) = (any (λ m. m == n) ns ≡ false) × Distinct ns

fresh :
    (name : Text) (cs : List ExtColumnSpec)
    → All (λ (c : ExtColumnSpec). (name == c.name) ≡ false) cs
    → any (λ m. m == name) (map (λ (c : ExtColumnSpec). c.name) cs) ≡ false
fresh name [] h = refl
fresh name (c ∷ cs) h =
    ground (arith, h.0, fresh name cs h.1, list_eq_iff name c.name, list_eq_iff c.name name)

not_refused :
    (b : Bool) (e : ToolError) (r : Result ToolError ℕ) (n : ℕ)
    → (if b then err e else r) ≡ ok n
    → (b ≡ false) × (r ≡ ok n)
not_refused true e r n h = cc
not_refused false e r n h = (refl, h)

neither : (a b : Bool) → (a || b) ≡ false → (a ≡ false) × (b ≡ false)
neither a b h = ground (arith, h)

checked_columns :
    (seen : List Text) (count : ℕ) (cs : List ExtColumnSpec) (n : ℕ)
    → check_columns seen count cs ≡ ok n
    → (n ≡ count + primary_keys cs)
      × All (λ (c : ExtColumnSpec). any (λ m. m == c.name) seen ≡ false) cs
      × Distinct (map (λ (c : ExtColumnSpec). c.name) cs)
unfolding check_columns
checked_columns seen count [] n h = (ground arith, tt, tt)
checked_columns seen count (c ∷ cs) n h =
    let step = not_refused (any (λ m. m == c.name) seen) _ _ n h in
    let ih =
      checked_columns (c.name ∷ seen) (if c.primary_key then count + 1 else count) cs n step.1 in
    let apart : All
        (λ (x : ExtColumnSpec). ((c.name == x.name) || any (λ m. m == x.name) seen) ≡ false) cs =
      ih.1 in
    (
      ground (arith, ih.0),
      (
        step.0,
        All-mono _ _ cs (λ x k. (neither (c.name == x.name) (any (λ m. m == x.name) seen) k).1)
            apart,
      ),
      (
        fresh c.name cs (
            All-mono _ _ cs (λ x k. (neither (c.name == x.name) (any (λ m. m == x.name) seen) k).0)
              apart),
        ih.2,
      ),
    )

opening :
    (b c : Bool) (e f : ToolError) (r : Result ToolError ℕ) (k : ℕ → Result ToolError (Text × Text))
    (x : Text × Text)
    → (guard b e >> (guard c f >> (r >>= k))) ≡ ok x
    → (b ≡ true) × (c ≡ true) × ((n : ℕ) × (r ≡ ok n) × (k n ≡ ok x))
opening true true e f (ok n) k x h = (refl, refl, (n, refl, h))
opening true true e f (err y) k x h = cc
opening true false e f r k x h = cc
opening false c e f r k x h = cc

closing :
    (b : Bool) (e : ToolError) (r : Result ToolError (List Text)) (f : List Text → Text × Text)
    (x : Text × Text)
    → (guard b e >> (r >>= λ parts. ok (f parts))) ≡ ok x
    → (b ≡ true) × ((parts : List Text) × (f parts ≡ x))
closing true e (ok parts) f x h = (refl, (parts, ground (arith, h)))
closing true e (err y) f x h = cc
closing false e r f x h = cc

nonempty : (cs : List ExtColumnSpec) → not (length cs == 0) ≡ true → cs ≢ []
nonempty [] h e = cc
nonempty (c ∷ cs) h e = cc

-- A table that is built has a name that is an identifier, at least one column, column names that
-- are all different, and at most one primary key.
pub build_create_table_sql_lem :
    (prefix table : Text) (columns : List ExtColumnSpec) (sql full : Text)
    → build_create_table_sql prefix table columns ≡ ok (sql, full)
    → (is_identifier table ≡ true)
      × (columns ≢ [])
      × Distinct (map (λ (c : ExtColumnSpec). c.name) columns)
      × (primary_keys columns ≤ 1)
      × (full ≡ prefix ++ table)
unfolding build_create_table_sql
build_create_table_sql_lem prefix table columns sql full h =
    let start =
      opening (is_identifier table) (not (length columns == 0)) _ _ (check_columns [] 0 columns) _
        (sql, full) h in
    let finish = closing (leb start.2.0 1) _ (columns_to_sql columns) _ (sql, full) start.2.2 in
    let facts = checked_columns [] 0 columns start.2.0 start.2.1 in
    (
      start.0,
      (λ e. absurd (nonempty columns start.1 e)),
      facts.2,
      ground (arith, facts.0, finish.0),
      ap (λ (x : Text × Text). x.1) (sym finish.1.1),
    )
