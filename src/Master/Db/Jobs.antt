-- ===== src/Master/Db/Jobs.antt =====
-- The embedding queue of src/vaultmcp/master/db.py: `pop_pending_embedding_job`,
-- `complete_embedding_job`, `fail_embedding_job` and `embedding_queue_stats`.
pub mod Retries
use vaultmcp.Prelude.{ℕ, suc}
use vaultmcp.Prelude.{Bool, true, false, not, ◌&&◌, ◌||◌, Option, none, some, List, [], ◌∷◌}
use vaultmcp.Prelude.{map, ltb, leb, if◌then◌else◌}
use vaultmcp.Prelude.{◌==◌, nat_Eq, list_Eq, option_Eq}
use vaultmcp.Prelude.{length, select}
use vaultmcp.Prelude.{sort_by}
use vaultmcp.Prelude.{Text}
use vaultmcp.Master.Db.Rows.{Db, PageRow, JobRow, EmbeddingRow}
use vaultmcp.Master.Db.Tables.{upsert}
use vaultmcp.Master.Db.Pages.{get_page}

abbrev pub pending : ℕ → JobRow → Bool
pending max_attempts j = ltb j.attempts max_attempts

-- `ORDER BY enqueued_at ASC, id ASC`
unfoldable pub sooner : JobRow → JobRow → Bool
sooner a b = ltb a.enqueued_at b.enqueued_at || (a.enqueued_at == b.enqueued_at && leb a.id b.id)

unfoldable pub next_job : ℕ → Db → Option JobRow
unfolding sooner sort_by
next_job max_attempts db = elim (sort_by sooner (select (pending max_attempts) db.embedding_jobs)) [
  | [] ↦ none
  | j ∷ js ↦ some j
]

-- `UPDATE embedding_jobs SET attempts = attempts + 1 WHERE id = ..`
abbrev pub attempt : ℕ → JobRow → JobRow
attempt id j = if j.id == id then record j { attempts = suc j.attempts } else j

abbrev pub page_content : Option PageRow → Text
page_content none = []
page_content (some p) = p.content

-- The claimed job: its id, path, version and the page's content now.
pub record Claim : Type 0 where
  pub job_id : ℕ
  pub path : Text
  pub version : ℕ
  pub content : Text

unfoldable pub pop_pending_embedding_job : ℕ → Db → Option Claim × Db
unfolding next_job get_page
pop_pending_embedding_job max_attempts db = elim (next_job max_attempts db) [
  | none ↦ (none, db)
  | some j ↦ (
    some (record {
      job_id = j.id;
      path = j.path;
      version = j.version;
      content = page_content (get_page j.path db);
    }),
    record db { embedding_jobs = map (attempt j.id) db.embedding_jobs },
  )
]

abbrev pub embedding_key : EmbeddingRow → Text
embedding_key e = e.path

-- The upsert is refused by the foreign key to `pages(path)` if the page is gone; the exception rolls
-- the transaction back. `none` is that exception.
unfoldable pub complete_embedding_job : ℕ → ℕ → EmbeddingRow → Db → Option Db
unfolding get_page upsert
complete_embedding_job now job_id e db = elim (get_page e.path db) [
  | none ↦ none
  | some p ↦ some (record db {
    embeddings = upsert embedding_key (record e { computed_at = now }) db.embeddings;
    embedding_jobs = select (λ j. not (j.id == job_id)) db.embedding_jobs;
  })
]

abbrev pub with_error : ℕ → Text → JobRow → JobRow
with_error id error j = if j.id == id then record j { last_error = some error } else j

unfoldable pub fail_embedding_job : ℕ → Text → Db → Db
fail_embedding_job job_id error db = record db {
  embedding_jobs = map (with_error job_id error) db.embedding_jobs;
}

pub record QueueStats : Type 0 where
  pub pending : ℕ
  pub failed : ℕ
  pub embedded : ℕ
  pub last_error : Option Text
  pub last_error_path : Option Text

abbrev has_error : JobRow → Bool
has_error j = elim j.last_error [ none ↦ false | some e ↦ true ]

-- `ORDER BY enqueued_at DESC`
unfoldable pub enqueued_later : JobRow → JobRow → Bool
enqueued_later a b = leb b.enqueued_at a.enqueued_at

abbrev pub head? : List JobRow → Option JobRow
head? [] = none
head? (j ∷ js) = some j

unfoldable pub embedding_queue_stats : Db → QueueStats
unfolding sort_by enqueued_later
embedding_queue_stats db =
    let last_err = head? (sort_by enqueued_later (select has_error db.embedding_jobs)) in
    record {
      pending = length (select (λ j. ltb j.attempts 5) db.embedding_jobs);
      failed = length (select (λ j. leb 5 j.attempts) db.embedding_jobs);
      embedded = length db.embeddings;
      last_error = elim last_err [ none ↦ none | some j ↦ j.last_error ];
      last_error_path = elim last_err [ none ↦ none | some j ↦ some j.path ];
    }
