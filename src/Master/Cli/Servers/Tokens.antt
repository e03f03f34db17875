-- ===== src/Master/Cli/Servers/Tokens.antt =====
-- Which tokens authenticate after `add-server`, `rotate-token` and `remove-server`.
use vaultmcp.Prelude.{ℕ, ◌≤◌}
use vaultmcp.Prelude.{◌≡◌, refl, ◌∙◌, inl, inr}
use vaultmcp.Prelude.{Bool, true, false, not, ◌&&◌, Option, none, some, List, [], ◌∷◌, ◌++◌}
use vaultmcp.Prelude.{arith, if◌then◌else◌, Bool-cases}
use vaultmcp.Prelude.{◌==◌, nat_Eq, list_Eq, option_Eq, list_eq_iff, beq_refl}
use vaultmcp.Prelude.{length, find, any, All}
use vaultmcp.Prelude.{Text, codes}
use vaultmcp.Prelude.{subst}
use vaultmcp.Prelude.Texts.Stripping.{is_solid}
use vaultmcp.Master.Auth.{
  Authenticated, authenticated, invalid_token, dev_mode, check_token, authenticate, parse_bearer,
}
use vaultmcp.Master.Auth.Tokens.{parse_bearer_lem}
use vaultmcp.Master.Db.Rows.{Db, ServerRow}
use vaultmcp.Master.Db.Tables.{lookup, upsert, remove}
use vaultmcp.Master.Db.Tables.Keys.{NodupKeys}
use vaultmcp.Master.Db.Servers.{
  server_key, update_server_token, remove_server, find_server_by_token_hash, count_servers,
}
use vaultmcp.Master.Cli.Servers.{rotated, removed, rotate_token_cmd, remove_server_cmd}

abbrev pub has_hash : Text → ServerRow → Bool
has_hash h s = s.token_hash == some h

-- Some other server than `id` has the hash.
abbrev pub other_has_hash : Text → Text → ServerRow → Bool
other_has_hash id h s = not (s.id == id) && has_hash h s

find-upsert_new :
    (h : Text) (new : ServerRow) (rows : List ServerRow)
    → has_hash h new ≡ true
    → any (has_hash h) rows ≡ false
    → find (has_hash h) (upsert server_key new rows) ≡ some new
unfolding upsert
find-upsert_new h new [] n a = rw n refl
find-upsert_new h new (s ∷ rows) n a = elim (Bool-cases (s.id == new.id)) [
  | inl e ↦ rw (e, n) refl
  | inr e ↦ ground (arith, e, n, a, find-upsert_new h new rows n)
]

find_nothing :
    (id h : Text) (rows : List ServerRow)
    → All (λ s. (id == s.id) ≡ false) rows
    → any (other_has_hash id h) rows ≡ false
    → find (has_hash h) rows ≡ none
find_nothing id h [] k a = refl
find_nothing id h (s ∷ rows) k a =
    ground (arith, k.0, a, find_nothing id h rows k.1, list_eq_iff id s.id, list_eq_iff s.id id)

find-upsert_old :
    (h : Text) (new : ServerRow) (rows : List ServerRow)
    → has_hash h new ≡ false
    → NodupKeys server_key rows
    → any (other_has_hash new.id h) rows ≡ false
    → find (has_hash h) (upsert server_key new rows) ≡ none
unfolding upsert
find-upsert_old h new [] n k a = rw n refl
find-upsert_old h new (s ∷ rows) n k a = elim (Bool-cases (s.id == new.id)) [
  | inl e ↦
      let same : s.id ≡ new.id = (list_eq_iff s.id new.id).0 e in
      rw (e, n)
        (find_nothing new.id h rows
          (subst (λ (i : Text). All (λ (b : ServerRow). (i == b.id) ≡ false) rows) same k.0)
          (ground (arith, a)))
  | inr e ↦ ground (arith, e, n, a, find-upsert_old h new rows n k.1)
]

find-remove :
    (id h : Text) (rows : List ServerRow)
    → any (other_has_hash id h) rows ≡ false
    → find (has_hash h) (remove server_key id rows) ≡ none
unfolding remove
find-remove id h [] a = refl
find-remove id h (s ∷ rows) a = ground (arith, a, find-remove id h rows)

length-upsert : (new : ServerRow) (rows : List ServerRow) → 1 ≤ length (upsert server_key new rows)
unfolding upsert
length-upsert new [] = omega arith
length-upsert new (s ∷ rows) = elim (Bool-cases (s.id == new.id)) [
  | inl e ↦ rw e (omega arith)
  | inr e ↦ rw e (omega arith)
]

-- A token without white space, and the header that carries it.
abbrev pub is_token : Text → Bool
is_token [] = false
is_token (c ∷ t) = is_solid (c ∷ t)

abbrev pub bearer : Text → Option Text
bearer token = some (codes "Bearer" ++ b' ' ∷ token)

parse_bearer-token :
    (token : Text) → is_token token ≡ true → parse_bearer (bearer token) ≡ some token
parse_bearer-token [] h = cc
parse_bearer-token (c ∷ t) h = parse_bearer_lem c t h

module _ (hash_token : Text → Text) (token : Text) (solid : is_token token ≡ true) where
  abbrev known : Option ServerRow → Authenticated
  known none = invalid_token
  known (some s) = authenticated (record { id = s.id; apps = s.apps })

  authenticate-bearer :
      (db : Db) (o : Option ServerRow)
      → find (has_hash (hash_token token)) db.servers ≡ o
      → authenticate hash_token (bearer token) db
        ≡ (if length db.servers == 0 then dev_mode else known o)
  unfolding authenticate check_token find_server_by_token_hash count_servers
  authenticate-bearer db none q =
      rw (parse_bearer-token token solid) (rw (q, check_token, find_server_by_token_hash) refl)
  authenticate-bearer db (some s) q =
      rw (parse_bearer-token token solid) (rw (q, check_token, find_server_by_token_hash) refl)

  authenticate-some_server :
      (db : Db) (o : Option ServerRow)
      → 1 ≤ length db.servers
      → find (has_hash (hash_token token)) db.servers ≡ o
      → authenticate hash_token (bearer token) db ≡ known o
  authenticate-some_server db o n q = authenticate-bearer db o q ∙ ground (arith, n)

abbrev rotated_row : (Text → Text) → Text → ℕ → ServerRow → ServerRow
rotated_row hash_token new now s = record s {
  token_hash = some (hash_token new);
  rotated_at = some now;
}

rotate_found :
    (hash_token : Text → Text) (new : Text) (now : ℕ) (id : Text) (db : Db) (s : ServerRow)
    → lookup server_key id db.servers ≡ some s
    → rotate_token_cmd hash_token new now id db ≡ (
      rotated id new,
      record db { servers = upsert server_key (rotated_row hash_token new now s) db.servers },
    )
unfolding rotate_token_cmd update_server_token
rotate_found hash_token new now id db s q = rw (q, update_server_token) refl

remove_found :
    (id : Text) (db : Db) (s : ServerRow)
    → lookup server_key id db.servers ≡ some s
    → remove_server_cmd id db
      ≡ (removed id, record db { servers = remove server_key id db.servers })
unfolding remove_server_cmd remove_server
remove_found id db s q = rw (q, remove_server) refl

-- After `rotate-token` the server authenticates with the new token and with no other that it had, if
-- no server has the new token's hash, no other server has the old one's, and the two hashes differ.
pub rotate_token_switches :
    (hash_token : Text → Text) (new old : Text) (now : ℕ) (id : Text) (db : Db) (s : ServerRow)
    → is_token new ≡ true
    → is_token old ≡ true
    → NodupKeys server_key db.servers
    → lookup server_key id db.servers ≡ some s
    → any (has_hash (hash_token new)) db.servers ≡ false
    → any (other_has_hash s.id (hash_token old)) db.servers ≡ false
    → (hash_token new == hash_token old) ≡ false
    → ((rotate_token_cmd hash_token new now id db).0 ≡ rotated id new)
      × (authenticate hash_token (bearer new) (rotate_token_cmd hash_token new now id db).1
          ≡ authenticated (record { id = s.id; apps = s.apps }))
      × (authenticate hash_token (bearer old) (rotate_token_cmd hash_token new now id db).1
          ≡ invalid_token)
rotate_token_switches hash_token new old now id db s n o d q fresh_hash others differ =
    let row : ServerRow = rotated_row hash_token new now s in
    let db' : Db = record db { servers = upsert server_key row db.servers } in
    rw (rotate_found hash_token new now id db s q) (
      refl,
      authenticate-some_server hash_token new n db' (some row) (length-upsert row db.servers)
          (find-upsert_new (hash_token new) row db.servers (beq_refl (hash_token new)) fresh_hash),
      authenticate-some_server hash_token old o db' none (length-upsert row db.servers)
          (find-upsert_old (hash_token old) row db.servers differ d others),
    )

-- After `remove-server` the server's token, if no other server has its hash, is refused as long as a
-- server is left; once the last one is removed, it passes as in development mode.
pub remove_server_ends :
    (hash_token : Text → Text) (token : Text) (id : Text) (db : Db) (s : ServerRow)
    → is_token token ≡ true
    → lookup server_key id db.servers ≡ some s
    → any (other_has_hash id (hash_token token)) db.servers ≡ false
    → ((remove_server_cmd id db).0 ≡ removed id)
      × (authenticate hash_token (bearer token) (remove_server_cmd id db).1
          ≡ (if count_servers (remove_server_cmd id db).1 == 0 then dev_mode else invalid_token))
unfolding count_servers
remove_server_ends hash_token token id db s t q others =
    let db' : Db = record db { servers = remove server_key id db.servers } in
    rw (remove_found id db s q) (
      refl,
      authenticate-bearer hash_token token t db' none
          (find-remove id (hash_token token) db.servers others),
    )
