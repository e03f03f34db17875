-- ===== src/Master/Db/Servers.antt =====
-- The `servers` table of src/vaultmcp/master/db.py: `add_server`, `update_server_token`,
-- `remove_server`, `find_server_by_token_hash`, `count_servers`, `list_servers` and
-- `servers_with_activity`.
use vaultmcp.Prelude.{ℕ, max}
use vaultmcp.Prelude.{Bool, true, false, Option, none, some, List, [], ◌∷◌, ◌++◌}
use vaultmcp.Prelude.{map}
use vaultmcp.Prelude.{◌==◌, nat_Eq, list_Eq, option_Eq}
use vaultmcp.Prelude.{length, select, find}
use vaultmcp.Prelude.{sort_by}
use vaultmcp.Prelude.{Text, text_le}
use vaultmcp.Master.Db.Rows.{Db, ServerRow, AuditRow}
use vaultmcp.Master.Db.Tables.{lookup, upsert, remove}

abbrev pub server_key : ServerRow → Text
server_key s = s.id

unfoldable pub add_server : ℕ → Text → List Text → Text → Db → Bool × Db
unfolding lookup
add_server now id apps token_hash db = elim (lookup server_key id db.servers) [
  | some s ↦ (false, db)
  | none ↦ (
    true,
    record db {
      servers =
          db.servers
          ++ record { id = id; apps = apps; token_hash = some token_hash; rotated_at = some now }
            ∷ [];
    },
  )
]

unfoldable pub update_server_token : ℕ → Text → Text → Db → Bool × Db
unfolding lookup upsert
update_server_token now id token_hash db = elim (lookup server_key id db.servers) [
  | none ↦ (false, db)
  | some s ↦ (
    true,
    record db {
      servers =
          upsert server_key (record s { token_hash = some token_hash; rotated_at = some now })
            db.servers;
    },
  )
]

unfoldable pub remove_server : Text → Db → Bool × Db
unfolding lookup remove
remove_server id db = elim (lookup server_key id db.servers) [
  | none ↦ (false, db)
  | some s ↦ (true, record db { servers = remove server_key id db.servers })
]

-- `fetchrow` takes the first row that comes; the column has no unique index.
unfoldable pub find_server_by_token_hash : Text → Db → Option (Text × List Text)
find_server_by_token_hash token_hash db =
    elim (find (λ (s : ServerRow). s.token_hash == some token_hash) db.servers) [
      | none ↦ none
      | some s ↦ some (s.id, s.apps)
    ]

unfoldable pub count_servers : Db → ℕ
count_servers db = length db.servers

-- `ORDER BY id`
unfoldable pub server_before : ServerRow → ServerRow → Bool
server_before a b = text_le a.id b.id

unfoldable pub list_servers : Db → List (Text × List Text × Option ℕ)
unfolding sort_by server_before
list_servers db = map (λ s. (s.id, s.apps, s.rotated_at)) (sort_by server_before db.servers)

-- `MAX(ts)`
abbrev pub latest : List AuditRow → Option ℕ
latest [] = none
latest (a ∷ rows) = elim (latest rows) [ none ↦ some a.ts | some t ↦ some (max a.ts t) ]

unfoldable pub servers_with_activity : Db → List (Text × List Text × Option ℕ × Option ℕ)
unfolding sort_by server_before
servers_with_activity db =
    map (λ s. (s.id, s.apps, s.rotated_at, latest (select (λ a. a.server_id == s.id) db.audit)))
      (sort_by server_before db.servers)
