-- ===== src/Agent/VersionCache.antt =====
-- src/vaultmcp/agent/version_cache.py: the two tables of the SQLite file.
use vaultmcp.Prelude.{ℕ}
use vaultmcp.Prelude.{◌≡◌, refl}
use vaultmcp.Prelude.{Option, none, some, List, [], ◌∷◌}
use vaultmcp.Prelude.{arith, if◌then◌else◌}
use vaultmcp.Prelude.{◌==◌, nat_Eq, list_Eq, option_Eq, list_eq_iff}
use vaultmcp.Prelude.{Text}

pub record PageVersion : Type 0 where
  pub path : Text
  pub version : ℕ
  pub global_version : ℕ

pub record Cache : Type 0 where
  pub page_versions : List PageVersion
  pub cursor : ℕ

abbrev pub new_cache : Cache
new_cache = record { page_versions = []; cursor = 0 }

unfoldable pub version_in : Text → List PageVersion → Option ℕ
version_in path [] = none
version_in path (r ∷ rows) =
    let rest = version_in path rows in if r.path == path then some r.version else rest

unfoldable pub get_version : Text → Cache → Option ℕ
unfolding version_in
get_version path c = version_in path c.page_versions

unfoldable pub put_version : PageVersion → List PageVersion → List PageVersion
put_version new [] = new ∷ []
put_version new (r ∷ rows) =
    let rest = put_version new rows in if r.path == new.path then new ∷ rows else r ∷ rest

unfoldable pub set_version : Text → ℕ → ℕ → Cache → Cache
unfolding put_version
set_version path version gv c =
    let row : PageVersion = record { path = path; version = version; global_version = gv } in
    record c { page_versions = put_version row c.page_versions }

unfoldable pub get_cursor : Cache → ℕ
get_cursor c = c.cursor

unfoldable pub set_cursor : ℕ → Cache → Cache
set_cursor gv c = record c { cursor = gv }

version_in-put_version :
    (new : PageVersion) (k : Text) (rows : List PageVersion)
    → version_in k (put_version new rows)
      ≡ (if new.path == k then some new.version else version_in k rows)
unfolding version_in put_version
version_in-put_version new k [] = refl
version_in-put_version new k (r ∷ rows) = ground (
  arith,
  version_in-put_version new k rows,
  list_eq_iff r.path new.path,
  list_eq_iff r.path k,
  list_eq_iff new.path k,
)

pub get_version-set_version :
    (path : Text) (version gv : ℕ) (c : Cache) (k : Text)
    → get_version k (set_version path version gv c)
      ≡ (if path == k then some version else get_version k c)
unfolding get_version set_version
get_version-set_version path version gv c k =
    version_in-put_version (record { path = path; version = version; global_version = gv }) k
      c.page_versions
