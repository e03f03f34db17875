-- ===== src/Master/Db/Tables.antt =====
-- A table with a text for its primary key: SELECT, INSERT .. ON CONFLICT and DELETE by key.
pub mod Keys
pub mod Keyset
use vaultmcp.Prelude.{◌≡◌, refl}
use vaultmcp.Prelude.{Option, none, some, List, [], ◌∷◌}
use vaultmcp.Prelude.{arith, if◌then◌else◌}
use vaultmcp.Prelude.{◌==◌, nat_Eq, list_Eq, option_Eq, list_eq_iff}
use vaultmcp.Prelude.{Text}

module _ {ℓ} {Row : Type ℓ} (key : Row → Text) where
  unfoldable pub lookup : Text → List Row → Option Row
  lookup k [] = none
  lookup k (r ∷ rows) = let rest = lookup k rows in if key r == k then some r else rest

  -- `INSERT .. ON CONFLICT (key) DO UPDATE SET` of every column.
  unfoldable pub upsert : Row → List Row → List Row
  upsert new [] = new ∷ []
  upsert new (r ∷ rows) =
      let rest = upsert new rows in if key r == key new then new ∷ rows else r ∷ rest

  unfoldable pub remove : Text → List Row → List Row
  remove k [] = []
  remove k (r ∷ rows) = let rest = remove k rows in if key r == k then rest else r ∷ rest

  pub lookup-upsert :
      (new : Row) (k : Text) (rows : List Row)
      → lookup k (upsert new rows) ≡ (if key new == k then some new else lookup k rows)
  unfolding lookup upsert
  lookup-upsert new k [] = refl
  lookup-upsert new k (r ∷ rows) = ground (
    arith,
    lookup-upsert new k rows,
    list_eq_iff (key r) (key new),
    list_eq_iff (key r) k,
    list_eq_iff (key new) k,
  )

  pub lookup-remove :
      (j k : Text) (rows : List Row)
      → lookup k (remove j rows) ≡ (if j == k then none else lookup k rows)
  unfolding lookup remove
  lookup-remove j k [] = ground arith
  lookup-remove j k (r ∷ rows) =
      ground (
        arith,
        lookup-remove j k rows,
        list_eq_iff (key r) j,
        list_eq_iff (key r) k,
        list_eq_iff j k,
      )

  -- A row that is found has the key that was asked for.
  pub key-lookup : (k : Text) (rows : List Row) (r : Row) → lookup k rows ≡ some r → key r ≡ k
  unfolding lookup
  key-lookup k [] r h = cc
  key-lookup k (q ∷ rows) r h = ground (arith, key-lookup k rows r, list_eq_iff (key q) k)
