-- ===== src/Lib.antt =====
-- VaultMCP: a wiki that several servers read and write over HTTP, with the page text in Postgres, a
-- mirror of it on the master's disk, and a daemon on each server that keeps a local vault in step.
--
-- The parts, and the files that model them:
--
-- - Prelude: Boolean tests, lists, stable sorting (`ORDER BY`), results, Python's `str` on code points
--   (Texts), `str(n)` and `int(s)` (Ints), and the part of `re` that the patterns use (Regex).
-- - Shared/Value, Shared/Frontmatter: the Python objects of a YAML block, and
--   src/vaultmcp/shared/frontmatter.py. Shared/EnvFile: src/vaultmcp/shared/envfile.py.
--   Shared/FilePath: `pathlib`'s joining, `resolve` and `relative_to`, a tree of files, `read_text` with
--   its newline conversion, and the replacement of a file through its `.tmp` sibling.
-- - Master/Db: src/vaultmcp/master/db.py over the tables of src/vaultmcp/master/schema.sql. `Db` holds
--   the tables as lists of rows and the sequences as their last numbers; a method is a function from
--   its arguments and the tables to its answer and the tables after its transaction. Pages holds
--   `get_page`, `write_page` and `list_pages`; Walk `iter_all_pages`; Ranked the searches; Events the log
--   and the event queries; Jobs the embedding queue; Audit, Servers and Extensions the tables of those
--   names; Like the operator `LIKE`. Pages/Register holds the abstract registers of the refinement,
--   Invariant says when the tables are consistent, and Invariant/Steps has one step per method, with
--   an extension's statement as one that leaves the pages and their log alone.
-- - Master/Validation, Master/Ownership, Master/Auth, Master/Render, Master/Extensions, Master/Sse: the
--   files of these names in src/vaultmcp/master/. Master/Fusion and Master/Search: the ranking of
--   hybrid search and `handle_search`. Master/Tools, Master/ExtTools and Master/ExtSql: the handlers
--   of src/vaultmcp/master/tools.py. Master/Server: `POST /mcp/call` of src/vaultmcp/master/server.py,
--   that is authentication, validation of the arguments, dispatch, and the status of an error.
--   Master/Mcp: the same dispatch behind src/vaultmcp/master/mcp_adapter.py. Master/Dashboard:
--   src/vaultmcp/master/dashboard/router.py up to its templates.
-- - Master/Embeddings: src/vaultmcp/master/embeddings.py. Hashed and Compatible are the two providers,
--   Worker the rounds of the worker over the job queue.
-- - Master/Cli: the commands of src/vaultmcp/master/__main__.py. Ingest is `ingest`, RenderAll
--   `render-all`, and Servers the four commands on server tokens.
-- - Agent/Client, Agent/Queue, Agent/Suppressor, Agent/VersionCache: the files of these names in
--   src/vaultmcp/agent/. Agent/Mirror: the state of the agent and the write of a page into the vault.
--   Agent/Sync and Agent/Watcher: src/vaultmcp/agent/sync.py and src/vaultmcp/agent/watcher.py.
-- - Wire: the frames of Master/Sse as Agent/Client reads them. Editing: a flush of Agent/Watcher, with the
--   answers of Master/Tools as Agent/Client understands them.
-- - Tests: the results at concrete inputs.
--
-- Below a part, a module named for a piece of the source (Validation/Secrets, Db/Pages, Cli/Ingest)
-- holds definitions of the program; the others hold proofs and are named for what they show.
--
-- How the parts meet: `handle_write` passes the checks of Auth, Ownership and Validation, calls
-- `write_page`, and renders the page to disk; `write_page` appends an event, which Sse delivers; the
-- agent's Client parses the stream, Sync applies each event to the Mirror and marks the path in the
-- Suppressor; Watcher sends local changes with the version of VersionCache as their base, and what
-- cannot be sent waits in Queue.
--
-- A transaction is one step: Postgres takes the row lock of `SELECT .. FOR UPDATE` before the version
-- is compared. Two first writes of one path have no row to lock and can both insert; the model has them
-- one after the other. A failure of Postgres rolls the transaction back, and the method answers `none`.
-- A time is a number, the clock and random ids are arguments. Natural numbers are unbounded
-- where Postgres has BIGINT. The fuel of `print` is the number plus one, which exceeds its digits,
-- and that of `glob_pieces` the length of the pattern plus one, where each round takes a character.
-- `iter_all_pages` has a number of rounds that exceeds the pages, where each round but the last takes a
-- row; the hashing provider takes at least one byte in each of its rounds; the worker's rounds are given
-- one by one.
--
-- What stands outside is a parameter: YAML and `datetime.fromisoformat` (Codec), the Unicode classes of
-- letters and digits (Unicode), SHA-256 (`hash_token`, `digest`), `json.loads`, the embedding service
-- (`Post`), the ranking of one row by Postgres and pgvector (Ranker, and Engine for the whole search),
-- floats (Floats, Numbers), what Postgres makes of an extension's SQL (Sql), its roles (the flags of
-- Master/Db/Extensions and `Postgres` of Master/ExtTools), the file system's failures (a write that
-- fails leaves the files as they were, without half a `.tmp` file), which metadata `json.dumps` and
-- JSONB take (`storable`), and, but for Editing, the answers of the master on the agent's side.
--
-- Not modelled: the metrics, the configuration files, the start and stop of the servers, the agent's
-- command line, the templates, the loops that listen and reconnect, and the benchmarks; they format,
-- start or wrap what is modelled here. Symbolic links are left out, and `int()` takes the ASCII digits
-- only.
pub mod Prelude
pub mod Shared
pub mod Master
pub mod Agent
pub mod Wire
pub mod Editing
mod Tests
