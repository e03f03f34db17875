-- ===== src/Master/Db/Pages.antt =====
-- `get_page`, `write_page` and `list_pages` of src/vaultmcp/master/db.py.
pub mod Listing
pub mod Write
pub mod Register
use vaultmcp.Prelude.{ℕ, suc, ◌+◌}
use vaultmcp.Prelude.{Bool, true, false, ◌&&◌, Option, none, some, List, [], ◌∷◌, ◌++◌}
use vaultmcp.Prelude.{ltb, leb, if◌then◌else◌}
use vaultmcp.Prelude.{◌==◌, nat_Eq, list_Eq, option_Eq}
use vaultmcp.Prelude.{length, take, last?, select, any}
use vaultmcp.Prelude.{sort_by}
use vaultmcp.Prelude.{Text, codes}
use vaultmcp.Prelude.Ints.{ℤ, pos, negsuc, print, parse_int}
use vaultmcp.Shared.Value.{Value, Fields, int, dict, field, end, text}
use vaultmcp.Master.Db.Rows.{Db, PageRow, JobRow, Operation, Outcome}
use vaultmcp.Master.Db.Tables.{lookup, upsert}
use vaultmcp.Master.Db.Audit.{AuditArgs, insert_audit}
use vaultmcp.Master.Db.Like.{like_prefix}

abbrev pub page_key : PageRow → Text
page_key p = p.path

unfoldable pub get_page : Text → Db → Option PageRow
unfolding lookup
get_page path db = lookup page_key path db.pages

-- The arguments of `write_page`.
pub record PageWrite : Type 0 where
  pub path : Text
  pub content : Text
  pub base_version : Option ℕ
  pub metadata : Fields
  pub page_type : Text
  pub owners : List Text
  pub updated : ℕ
  pub last_writer_server : Text
  pub last_writer_app : Text
  pub last_writer_session : Text
  pub agent_model : Option Text
  pub prompt_hash : Option Text
  pub client_ip : Option Text

pub record WriteResult : Type 0 where
  pub path : Text
  pub version : ℕ
  pub global_version : ℕ
  pub applied_at : ℕ

pub record ConflictResult : Type 0 where
  pub current_version : ℕ
  pub current_content : Text
  pub last_writer : Text

pub data WriteOutcome : Type 0 where
  written : WriteResult → WriteOutcome
  conflicted : ConflictResult → WriteOutcome

-- The audit row of a write.
abbrev pub write_audit : PageWrite → Option ℕ → Option ℕ → Outcome → Option Text → AuditArgs
write_audit a before after outcome error_code = record {
  operation = Operation.write;
  path = some a.path;
  server_id = a.last_writer_server;
  app = a.last_writer_app;
  agent_model = a.agent_model;
  prompt_hash = a.prompt_hash;
  version_before = before;
  version_after = after;
  outcome = outcome;
  error_code = error_code;
  client_ip = a.client_ip;
}

abbrev pub page_row : PageWrite → ℕ → ℕ → PageRow
page_row a version gv = record {
  path = a.path;
  content = a.content;
  version = version;
  global_version = gv;
  metadata = a.metadata;
  page_type = a.page_type;
  owners = a.owners;
  updated = a.updated;
  last_writer_server = a.last_writer_server;
  last_writer_app = a.last_writer_app;
  last_writer_session = a.last_writer_session;
}

-- `INSERT INTO events`
unfoldable pub insert_event : ℕ → Text → Option Text → ℕ → Value → Db → Db
insert_event now event_type path gv payload db =
    let id = suc db.events_id_seq in
    record db {
      events =
          db.events
          ++ record {
            id = id;
            ts = now;
            event_type = event_type;
            path = path;
            global_version = gv;
            payload = payload;
          }
            ∷ [];
      events_id_seq = id;
    }

abbrev pub is_job : Text → ℕ → JobRow → Bool
is_job path version j = j.path == path && j.version == version

-- `INSERT INTO embedding_jobs .. ON CONFLICT (path, version) DO NOTHING`. The id is drawn from its
-- sequence before the conflict is seen.
unfoldable pub insert_job : ℕ → Text → ℕ → Db → Db
insert_job now path version db =
    let id = suc db.embedding_jobs_id_seq in
    record db {
      embedding_jobs =
          if any (is_job path version) db.embedding_jobs
          then db.embedding_jobs
          else db.embedding_jobs
            ++ record {
              id = id;
              path = path;
              version = version;
              enqueued_at = now;
              attempts = 0;
              last_error = none;
            }
              ∷ [];
      embedding_jobs_id_seq = id;
    }

abbrev pub version_payload : ℕ → Value
version_payload n = dict (field (text (codes "version")) (int (pos n)) end)

-- `SELECT nextval('global_version_seq')` and the upsert of the page.
unfoldable pub put_page : PageWrite → ℕ → Db → Db
unfolding upsert
put_page a version db =
    let gv = suc db.global_version_seq in
    record db { global_version_seq = gv; pages = upsert page_key (page_row a version gv) db.pages }

-- The rest of the transaction once the version is settled.
unfoldable pub commit_page : ℕ → PageWrite → Option ℕ → ℕ → Db → WriteOutcome × Db
unfolding put_page insert_event insert_job insert_audit
commit_page now a before version db =
    let gv = suc db.global_version_seq in
    let db₁ = put_page a version db in
    let db₂ =
      insert_event now (codes "PageChanged") (some a.path) gv (version_payload version) db₁ in
    let db₃ = insert_job now a.path version db₂ in
    (
      written (record { path = a.path; version = version; global_version = gv; applied_at = now }),
      insert_audit now (write_audit a before (some version) Outcome.succeeded none) db₃,
    )

-- The test of `base_version` against the row that is there.
unfoldable pub write_found : ℕ → PageWrite → Option PageRow → Db → WriteOutcome × Db
unfolding commit_page
write_found now a none db = elim a.base_version [
  | none ↦ commit_page now a none 1 db
  | some v ↦ (
    conflicted (record { current_version = 0; current_content = []; last_writer = [] }),
    insert_audit now
        (write_audit a none none Outcome.conflict
          (some (codes "not_found_but_base_version_supplied")))
        db,
  )
]
write_found now a (some existing) db =
    if a.base_version == some existing.version
    then commit_page now a (some existing.version) (existing.version + 1) db
    else (
      conflicted (record {
        current_version = existing.version;
        current_content = existing.content;
        last_writer = existing.last_writer_server;
      }),
      insert_audit now (write_audit a (some existing.version) none Outcome.conflict none) db,
    )

-- The transaction for metadata that `_json_default` and JSONB take; what happens to other metadata is
-- `encoded` of Master/Tools. `FOR UPDATE` locks no row of a missing page: two calls that both find none
-- can both insert, which the model does not have, since its calls run one after the other.
unfoldable pub write_page : ℕ → PageWrite → Db → WriteOutcome × Db
unfolding write_found get_page
write_page now a db = write_found now a (get_page a.path db) db

-- The filters of `list_pages`. An empty text asks for nothing, as `if prefix:` has it.
pub record PageFilter : Type 0 where
  pub prefix : Option Text
  pub type_filter : Option Text
  pub updated_since : Option ℕ
  pub limit : ℕ
  pub cursor : Option Text

abbrev pub given : Option Text → (Text → Bool) → Bool
given none test = true
given (some []) test = true
given (some (c ∷ s)) test = test (c ∷ s)

abbrev since : Option ℕ → ℕ → Bool
since none t = true
since (some n) t = leb n t

-- `global_version < $n` at the number that the cursor reads as.
abbrev pub below : Option ℤ → ℕ → Bool
below none gv = true
below (some (pos n)) gv = ltb gv n
below (some (negsuc n)) gv = false

unfoldable pub page_matches : PageFilter → Option ℤ → PageRow → Bool
unfolding like_prefix
page_matches f cursor p =
    given f.prefix (λ s. like_prefix p.path s)
    && given f.type_filter (λ t. p.page_type == t)
    && since f.updated_since p.updated
    && below cursor p.global_version

-- `ORDER BY global_version DESC`
unfoldable pub later : PageRow → PageRow → Bool
later a b = leb b.global_version a.global_version

-- `str(pages[-1].global_version) if len(pages) == limit else None`
unfoldable pub next_cursor : ℕ → List PageRow → Option Text
unfolding print
next_cursor limit rows =
    if length rows == limit
    then (elim (last? rows) [ none ↦ none | some p ↦ some (print p.global_version) ])
    else none

unfoldable pub list_matching : PageFilter → Option ℤ → Db → List PageRow × Option Text
unfolding page_matches later next_cursor sort_by
list_matching f cursor db =
    let rows = take f.limit (sort_by later (select (page_matches f cursor) db.pages)) in
    (rows, next_cursor f.limit rows)

-- The cursor as a number, if there is one; `none` is the `ValueError` of `int(cursor)`.
unfoldable pub read_cursor : Option Text → Option (Option ℤ)
unfolding parse_int
read_cursor none = some none
read_cursor (some []) = some none
read_cursor (some (c ∷ s)) = elim (parse_int (c ∷ s)) [ none ↦ none | some n ↦ some (some n) ]

-- `none` is an exception: of `int(cursor)`, or the `IndexError` of `pages[-1]` at a limit of 0.
unfoldable pub list_pages : PageFilter → Db → Option (List PageRow × Option Text)
unfolding list_matching read_cursor
list_pages f db = if f.limit == 0 then none else elim (read_cursor f.cursor) [
  | none ↦ none
  | some cursor ↦ some (list_matching f cursor db)
]
