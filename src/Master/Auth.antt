-- ===== src/Master/Auth.antt =====
-- src/vaultmcp/master/auth.py and `authenticate` of src/vaultmcp/master/server.py. SHA-256 is the
-- argument `hash_token`.
pub mod Tokens
use vaultmcp.Prelude.{ℕ, ◌+◌}
use vaultmcp.Prelude.{◌&&◌, Option, none, some, List, [], ◌∷◌}
use vaultmcp.Prelude.{map, leb, if◌then◌else◌}
use vaultmcp.Prelude.{◌==◌, nat_Eq, list_Eq, option_Eq}
use vaultmcp.Prelude.{Text, codes, is_space, lstrip, strip}
use vaultmcp.Master.Db.Rows.{Db}
use vaultmcp.Master.Db.Servers.{count_servers, find_server_by_token_hash}

pub record AuthenticatedServer : Type 0 where
  pub id : Text
  pub apps : List Text

abbrev pub lower : ℕ → ℕ
lower c = if leb b'A' c && leb c b'Z' then c + 32 else c

-- `header.split(None, 1)`: the first word, and what stands after the white space behind it.
unfoldable pub take_word : Text → Text × Text
unfolding is_space
take_word [] = ([], [])
take_word (c ∷ s) =
    let (word, rest) = take_word s in if is_space c then ([], c ∷ s) else (c ∷ word, rest)

abbrev pub nonempty : Text → Option Text
nonempty [] = none
nonempty (c ∷ s) = some (c ∷ s)

-- `token.strip() or None`, under the test of the scheme. Only ASCII letters lower to "bearer".
unfoldable pub parse_scheme : Text × Text → Option Text
unfolding strip lstrip
parse_scheme (scheme, rest) = elim (lstrip rest) [
  | [] ↦ none
  | c ∷ s ↦ if map lower scheme == codes "bearer" then nonempty (strip (c ∷ s)) else none
]

unfoldable pub parse_bearer : Option Text → Option Text
unfolding take_word parse_scheme lstrip
parse_bearer none = none
parse_bearer (some header) = parse_scheme (take_word (lstrip header))

-- What the dependency gives: an identity, none in development mode, or a 401.
pub data Authenticated : Type 0 where
  dev_mode : Authenticated
  authenticated : AuthenticatedServer → Authenticated
  token_required invalid_token : Authenticated

abbrev pub matched : Option (Text × List Text) → Authenticated
matched none = invalid_token
matched (some (id, apps)) = authenticated (record { id = id; apps = apps })

unfoldable pub check_token : (Text → Text) → Option Text → Db → Authenticated
unfolding find_server_by_token_hash
check_token hash_token none db = token_required
check_token hash_token (some token) db = matched (find_server_by_token_hash (hash_token token) db)

unfoldable pub authenticate : (Text → Text) → Option Text → Db → Authenticated
unfolding count_servers parse_bearer check_token
authenticate hash_token header db =
    if count_servers db == 0 then dev_mode else check_token hash_token (parse_bearer header) db
