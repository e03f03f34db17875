-- ===== src/Master/Cli/Servers.antt =====
-- The commands `add-server`, `rotate-token`, `remove-server` and `list-servers`. The random token of
-- `generate_token` and SHA-256 are arguments.
pub mod Tokens
use vaultmcp.Prelude.{ℕ, zero, suc, ◌+◌, ◌-◌, ◌*◌, ◌/◌, ◌%◌, ◌^◌, ◌≤◌, ◌<◌, min, max, String}
use vaultmcp.Prelude.{◌≡◌, refl, sym, ap, ◌∙◌, fun_ext, ◌≢◌, ◌↔◌, ◌⊎◌, inl, inr}
use vaultmcp.Prelude.{Bool, true, false, not, ◌&&◌, ◌||◌, Option, none, some, List, [], ◌∷◌, ◌++◌}
use vaultmcp.Prelude.{
  map, reverse, arith, ltb, leb, nat_eq, if◌then◌else◌, Bool-cases, Option-cases,
}
use vaultmcp.Prelude.{
  Eq, ◌==◌, nat_Eq, list_Eq, option_Eq, list_eq_iff, option_eq_iff, nat_eq_iff, beq_refl,
}
use vaultmcp.Prelude.{
  length, take, drop, last?, select, find, any, all, All, length-append, length-take,
}
use vaultmcp.Prelude.{
  take_all, place, sort_by, Result, ok, err, ◌>>=◌, ◌>>◌, guard, bind-ok, Result-cases,
}
use vaultmcp.Prelude.{
  Text, codes, starts_with, is_space, lstrip, rstrip, strip, partition, split, join, text_le,
}
use vaultmcp.Prelude.{subst}
use vaultmcp.Master.Db.Rows.{Db}
use vaultmcp.Master.Db.Servers.{add_server, update_server_token, remove_server, list_servers}

-- What a command prints, or the message with which it exits.
pub data Printed : Type 0 where
  registered : Text → List Text → Text → Printed
  rotated : Text → Text → Printed
  removed : Text → Printed
  no_apps : Printed
  already_exists : Text → Printed
  no_server : Text → Printed

unfoldable pub exit_status : Printed → ℕ
exit_status (registered id apps token) = 0
exit_status (rotated id token) = 0
exit_status (removed id) = 0
exit_status no_apps = 2
exit_status (already_exists id) = 1
exit_status (no_server id) = 1

-- `[a.strip() for a in apps.split(",") if a.strip()]`
unfoldable pub apps_list : Text → List Text
unfolding strip
apps_list apps = select (λ a. ltb 0 (length a)) (map strip (split b',' apps))

unfoldable pub add_listed : (Text → Text) → Text → ℕ → Text → List Text → Db → Printed × Db
unfolding add_server
add_listed hash_token token now id [] db = (no_apps, db)
add_listed hash_token token now id (a ∷ apps) db =
    let (inserted, db') = add_server now id (a ∷ apps) (hash_token token) db in
    ((if inserted then registered id (a ∷ apps) token else already_exists id), db')

unfoldable pub add_server_cmd : (Text → Text) → Text → ℕ → Text → Text → Db → Printed × Db
unfolding apps_list add_listed
add_server_cmd hash_token token now id apps db =
    add_listed hash_token token now id (apps_list apps) db

unfoldable pub rotate_token_cmd : (Text → Text) → Text → ℕ → Text → Db → Printed × Db
unfolding update_server_token
rotate_token_cmd hash_token token now id db =
    let (updated, db') = update_server_token now id (hash_token token) db in
    ((if updated then rotated id token else no_server id), db')

-- Once the prompt has been confirmed.
unfoldable pub remove_server_cmd : Text → Db → Printed × Db
unfolding remove_server
remove_server_cmd id db =
    let (found, db') = remove_server id db in ((if found then removed id else no_server id), db')

-- `none` is the line that says that no server is registered and authentication is bypassed.
unfoldable pub list_servers_cmd : Db → Option (List (Text × List Text × Option ℕ))
unfolding list_servers
list_servers_cmd db = elim (list_servers db) [ [] ↦ none | s ∷ rows ↦ some (s ∷ rows) ]
