-- ===== src/Master/Server/Access.antt =====
-- Who may write through `POST /mcp/call`: what an accepted `wiki.write` says about the bearer token
-- of its request.
use vaultmcp.Prelude.{◌<◌}
use vaultmcp.Prelude.{◌≡◌, refl, sym, ap, ◌∙◌}
use vaultmcp.Prelude.{Bool, true, false, Option, none, some, List}
use vaultmcp.Prelude.{arith, if◌then◌else◌}
use vaultmcp.Prelude.{◌==◌, nat_Eq, list_Eq, option_Eq}
use vaultmcp.Prelude.{any}
use vaultmcp.Prelude.{Result, ok, err}
use vaultmcp.Prelude.{Text}
use vaultmcp.Master.Errors.{ToolError, invalid_arguments}
use vaultmcp.Master.Auth.{
  AuthenticatedServer, authenticated, authenticate, parse_bearer, check_token, matched,
}
use vaultmcp.Master.Db.Rows.{Db}
use vaultmcp.Master.Db.Servers.{count_servers, find_server_by_token_hash}
use vaultmcp.Master.Tools.{Env, World, Settings, WriteInput, WriteOutput, handle_write}
use vaultmcp.Master.Tools.Write.{IsCaller, handle_write-IsStored}
use vaultmcp.Master.Server.{
  map_reply, as_answer, valid_arguments, dispatch, respond, call_handler_by_name, ToolCall,
  wiki_write, Backend, Reply, answered, failed, wrote, call_tool, call_as,
}

-- The request names its server by the token: the header holds a token whose hash is that of a row of
-- `servers`, and the session names that row's id and one of its apps.
abbrev pub IsTokenOf : (Text → Text) → Option Text → Db → WriteInput → Type 0
IsTokenOf hash_token header db inp =
    (token : Text) × (apps : List Text) × (parse_bearer header ≡ some token)
    × (find_server_by_token_hash (hash_token token) db ≡ some (inp.session.server_id, apps))
    × (any (λ a. a == inp.session.app) apps ≡ true)

authenticate-check_token :
    (hash_token : Text → Text) (header : Option Text) (db : Db)
    → 0 < count_servers db
    → authenticate hash_token header db ≡ check_token hash_token (parse_bearer header) db
unfolding authenticate
authenticate-check_token hash_token header db some_server =
    let differs : (count_servers db == 0) ≡ false = ground (arith, some_server) in rw differs refl

refused_token :
    (backend : Backend) (hash_token : Text → Text) (env : Env) (settings : Settings)
    (call : ToolCall) (w : World) (o : Option Text)
    → ((token : Text) → o ≡ some token → find_server_by_token_hash (hash_token token) w.db ≡ none)
    → call_as backend env settings (check_token hash_token o w.db) call w ≡ (failed 401 none, w)
unfolding call_as check_token
refused_token backend hash_token env settings call w none unknown = refl
refused_token backend hash_token env settings call w (some token) unknown =
    rw (unknown token refl) refl

-- A request to `POST /mcp/call` without a token of a server that is known is answered with status
-- 401, whatever the tool and its arguments, and leaves the world as it was; this holds as soon as one
-- server is registered.
pub unknown_token_is_refused :
    (backend : Backend) (hash_token : Text → Text) (env : Env) (settings : Settings)
    (header : Option Text) (call : ToolCall) (w : World)
    → 0 < count_servers w.db
    → ((token : Text)
        → parse_bearer header ≡ some token
        → find_server_by_token_hash (hash_token token) w.db ≡ none)
    → call_tool backend hash_token env settings header call w ≡ (failed 401 none, w)
unfolding call_tool
unknown_token_is_refused backend hash_token env settings header call w some_server unknown =
    rw (authenticate-check_token hash_token header w.db some_server)
      (refused_token backend hash_token env settings call w (parse_bearer header) unknown)

written_as :
    (backend : Backend) (env : Env) (settings : Settings) (s : AuthenticatedServer)
    (inp : WriteInput) (w : World) (r : Reply backend)
    → (call_as backend env settings (authenticated s) (wiki_write inp) w).0 ≡ answered r
    → IsCaller (some s) inp
unfolding call_as call_handler_by_name dispatch
written_as backend env settings s inp w r h = checked (valid_arguments (wiki_write inp)) h
  where
    admitted :
        (x : Result ToolError WriteOutput)
        → (handle_write env settings (some s) inp w).0 ≡ x
        → as_answer backend (map_reply backend wrote x) ≡ answered r
        → IsCaller (some s) inp
    admitted (err e) q k = cc
    admitted (ok out) q k =
        (handle_write-IsStored env settings (some s) inp w out q).admission.caller

    checked :
        (b : Bool)
        → (respond backend (
            if b
            then dispatch backend env settings (some s) (wiki_write inp) w
            else (err invalid_arguments, w))).0
          ≡ answered r
        → IsCaller (some s) inp
    checked true k = admitted (handle_write env settings (some s) inp w).0 refl k
    checked false k = cc

accepted_from :
    (backend : Backend) (hash_token : Text → Text) (env : Env) (settings : Settings)
    (inp : WriteInput) (w : World) (r : Reply backend) (header : Option Text) (o : Option Text)
    → parse_bearer header ≡ o
    → (call_as backend env settings (check_token hash_token o w.db) (wiki_write inp) w).0
      ≡ answered r
    → IsTokenOf hash_token header w.db inp
unfolding check_token call_as
accepted_from backend hash_token env settings inp w r header none q h = cc
accepted_from backend hash_token env settings inp w r header (some token) q h =
    go (find_server_by_token_hash (hash_token token) w.db) refl h
  where
    go :
        (m : Option (Text × List Text))
        → find_server_by_token_hash (hash_token token) w.db ≡ m
        → (call_as backend env settings (matched m) (wiki_write inp) w).0 ≡ answered r
        → IsTokenOf hash_token header w.db inp
    go none e k = cc
    go (some (id, apps)) e k =
        let caller = written_as backend env settings (record { id = id; apps = apps }) inp w r k in
        (token, apps, q, e ∙ ap (λ (i : Text). some (i, apps)) (sym caller.0), caller.1)

-- Once a server is registered, a `wiki.write` through `POST /mcp/call` is accepted only with a bearer
-- token of the server that the session names, for an app of that server.
pub accepted_write_is_authenticated :
    (backend : Backend) (hash_token : Text → Text) (env : Env) (settings : Settings)
    (header : Option Text) (inp : WriteInput) (w : World) (r : Reply backend)
    → 0 < count_servers w.db
    → (call_tool backend hash_token env settings header (wiki_write inp) w).0 ≡ answered r
    → IsTokenOf hash_token header w.db inp
unfolding call_tool
accepted_write_is_authenticated backend hash_token env settings header inp w r some_server h =
    accepted_from backend hash_token env settings inp w r header (parse_bearer header) refl
      (rw (sym (authenticate-check_token hash_token header w.db some_server)) h)
