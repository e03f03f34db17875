-- ===== src/Master/Embeddings/Worker/Settling.antt =====
-- What becomes of the job that a round of the worker takes.
use vaultmcp.Prelude.{◌≢◌}
use vaultmcp.Master.Embeddings.Worker.{wrong_length, column_mismatch}
use vaultmcp.Prelude.{ℕ, ◌≤◌}
use vaultmcp.Prelude.{◌≡◌, refl, ◌⊎◌, inl, inr}
use vaultmcp.Prelude.{false, Option, none, some, List}
use vaultmcp.Prelude.{map, arith, Option-cases}
use vaultmcp.Prelude.{◌==◌, nat_Eq, list_Eq, option_Eq}
use vaultmcp.Prelude.{length, any}
use vaultmcp.Prelude.{ok, err}
use vaultmcp.Master.Db.Rows.{Db, JobRow}
use vaultmcp.Master.Db.Tables.{lookup}
use vaultmcp.Master.Db.Pages.{get_page}
use vaultmcp.Master.Db.Jobs.{
  Claim, attempt, with_error, embedding_key, next_job, pop_pending_embedding_job, page_content,
}
use vaultmcp.Master.Embeddings.Worker.{
  column_dimension, JobError, provider_raised, page_is_gone, WorkerInputs, embedding_row, cut,
}

abbrev pub attempted : Claim → Db → Db
attempted c db = record db { embedding_jobs = map (attempt c.job_id) db.embedding_jobs }

pub claimed_db :
    (limit : ℕ) (db : Db) (c : Claim)
    → (pop_pending_embedding_job limit db).0 ≡ some c
    → pop_pending_embedding_job limit db ≡ (some c, attempted c db)
unfolding pop_pending_embedding_job
claimed_db limit db c h = go (next_job limit db) h
  where
    pop : Option JobRow → Option Claim × Db
    pop o = elim o [
      | none ↦ (none, db)
      | some j ↦ (
        some (record {
          job_id = j.id;
          path = j.path;
          version = j.version;
          content = page_content (get_page j.path db);
        }),
        record db { embedding_jobs = map (attempt j.id) db.embedding_jobs },
      )
    ]

    go : (o : Option JobRow) → (pop o).0 ≡ some c → pop o ≡ (some c, attempted c db)
    go none e = cc
    go (some j) e = ground (arith, e)

pub unclaimed_db :
    (limit : ℕ) (db : Db)
    → (pop_pending_embedding_job limit db).0 ≡ none
    → (pop_pending_embedding_job limit db).1 ≡ db
unfolding pop_pending_embedding_job
unclaimed_db limit db h = elim (Option-cases (next_job limit db)) [
  | inl q ↦ rw (q, pop_pending_embedding_job) refl
  | inr (j, q) ↦ absurd (ground (arith, h, q))
]

module _ (inputs : WorkerInputs) (now : ℕ) where
  open inputs use {Float, show, message, provider}

  -- The embedding is stored under the path and the version of the job, and the job is gone.
  abbrev pub IsEmbedded : Claim → Db → Type 0
  IsEmbedded c db' =
      (v : List Float) × (provider.embed c.content ≡ ok v)
      × (length v ≡ provider.dim)
      × (length v ≡ column_dimension)
      × (lookup embedding_key c.path db'.embeddings
          ≡ some (record (embedding_row inputs c v) { computed_at = now }))
      × (any (λ (j : JobRow). j.id == c.job_id) db'.embedding_jobs ≡ false)

  -- What the error says: the provider raised it, its vector has not its dimension or not the column's, or
  -- the page is gone.
  abbrev pub IsReason : Claim → Db → JobError → Type 0
  IsReason c db (provider_raised e) = provider.embed c.content ≡ err e
  IsReason c db (wrong_length n m) =
      (v : List Float) × (provider.embed c.content ≡ ok v) × (length v ≢ provider.dim)
  IsReason c db column_mismatch =
      (v : List Float) × (provider.embed c.content ≡ ok v) × (length v ≢ column_dimension)
  IsReason c db page_is_gone =
      ((v : List Float) × (provider.embed c.content ≡ ok v)) × (get_page c.path db ≡ none)

  -- For that reason the embeddings are as they were, and the job has one more attempt and the error, cut
  -- to 500 characters.
  abbrev pub IsPutBack : Claim → Db → Db → Type 0
  IsPutBack c db db' =
      (e : JobError) × IsReason c db e
      × (length (cut inputs e) ≤ 500)
      × (db'.embeddings ≡ db.embeddings)
      × (db'.embedding_jobs
          ≡ map (with_error c.job_id (cut inputs e)) (map (attempt c.job_id) db.embedding_jobs))

  abbrev IsSettled : Claim → Db → Db → Type 0
  IsSettled c db db' = IsEmbedded c db' ⊎ IsPutBack c db db'
