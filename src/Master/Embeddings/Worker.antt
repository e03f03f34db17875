-- ===== src/Master/Embeddings/Worker.antt =====
-- `EmbeddingWorker` of src/vaultmcp/master/embeddings.py.
pub mod Settling
pub mod Idle
use vaultmcp.Prelude.{ℕ, zero, suc, ◌+◌, ◌-◌, ◌*◌, ◌/◌, ◌%◌, ◌^◌, ◌≤◌, ◌<◌, min, max, String}
use vaultmcp.Prelude.{◌≡◌, refl, sym, ap, ◌∙◌, fun_ext, ◌≢◌, ◌↔◌, ◌⊎◌, inl, inr}
use vaultmcp.Prelude.{Bool, true, false, not, ◌&&◌, ◌||◌, Option, none, some, List, [], ◌∷◌, ◌++◌}
use vaultmcp.Prelude.{
  map, reverse, arith, ltb, leb, nat_eq, if◌then◌else◌, Bool-cases, Option-cases,
}
use vaultmcp.Prelude.{
  Eq, ◌==◌, nat_Eq, list_Eq, option_Eq, list_eq_iff, option_eq_iff, nat_eq_iff, beq_refl,
}
use vaultmcp.Prelude.{
  length, take, drop, last?, select, find, any, all, All, length-append, length-take,
}
use vaultmcp.Prelude.{
  take_all, place, sort_by, Result, ok, err, ◌>>=◌, ◌>>◌, guard, bind-ok, Result-cases,
}
use vaultmcp.Prelude.{
  Text, codes, starts_with, is_space, lstrip, rstrip, strip, partition, split, join, text_le,
}
use vaultmcp.Prelude.{subst}
use vaultmcp.Master.Embeddings.Provider.{EmbedError, wrong_dimension, EmbeddingProvider}
use vaultmcp.Master.Db.Rows.{Db, EmbeddingRow}
use vaultmcp.Master.Db.Jobs.{
  Claim, pop_pending_embedding_job, complete_embedding_job, fail_embedding_job,
}

abbrev pub max_attempts : ℕ
max_attempts = 5

-- The type `vector(1024)` of the column.
abbrev pub column_dimension : ℕ
column_dimension = 1024

-- What stops a job: the provider, its dimension, or Postgres: a vector that does not fit the column, or
-- a page that is gone.
pub data JobError : Type 0 where
  provider_raised : EmbedError → JobError
  wrong_length : ℕ → ℕ → JobError
  column_mismatch : JobError
  page_is_gone : JobError

-- What the worker is given: how a float is printed, the text of an exception, and the provider.
pub record WorkerInputs : Type 1 where
  pub Float : Type 0
  pub show : Float → Text
  pub message : JobError → Text
  pub provider : EmbeddingProvider Float

-- `"[" + ",".join(..) + "]"`
abbrev pub vector_literal : {A : Type 0} → (A → Text) → List A → Text
vector_literal show v = codes "[" ++ join b',' (map show v) ++ codes "]"

module _ (inputs : WorkerInputs) where
  open inputs use {Float, show, message, provider}

  abbrev pub embedding_row : Claim → List Float → EmbeddingRow
  embedding_row c v = record {
    path = c.path;
    version = c.version;
    model = provider.name;
    dim = provider.dim;
    embedding = vector_literal show v;
    computed_at = 0;
  }

  abbrev pub or_error : {A : Type 0} → JobError → Option A → Result JobError A
  or_error e none = err e
  or_error e (some a) = ok a

  unfoldable pub store_vector : ℕ → Claim → List Float → Db → Result JobError Db
  unfolding complete_embedding_job
  store_vector now c v db =
      if not (length v == provider.dim)
      then err (wrong_length (length v) provider.dim)
      else if not (length v == column_dimension)
      then err column_mismatch
      else or_error page_is_gone (complete_embedding_job now c.job_id (embedding_row c v) db)

  -- The body of the `try`.
  unfoldable pub process : ℕ → Claim → Db → Result JobError Db
  unfolding store_vector
  process now c db = elim (provider.embed c.content) [
    | err e ↦ err (provider_raised e)
    | ok v ↦ store_vector now c v db
  ]

  abbrev pub cut : JobError → Text
  cut e = take 500 (message e)

  unfoldable pub settle : Claim → Db → Result JobError Db → Db
  unfolding fail_embedding_job
  settle c db (ok db') = db'
  settle c db (err e) = fail_embedding_job c.job_id (cut e) db

  unfoldable pub handle_claim : ℕ → Option Claim × Db → Bool × Db
  unfolding process settle
  handle_claim now (none, db) = (false, db)
  handle_claim now (some c, db) = (true, settle c db (process now c db))

  unfoldable pub drain_one : ℕ → Db → Bool × Db
  unfolding pop_pending_embedding_job handle_claim
  drain_one now db = handle_claim now (pop_pending_embedding_job max_attempts db)

-- The rounds of `_run`: each with the time and what the provider does then. Whether a round sleeps
-- changes nothing in the tables.
unfoldable pub run_worker : List (ℕ × WorkerInputs) → Db → Db
unfolding drain_one
run_worker [] db = db
run_worker ((now, inputs) ∷ rounds) db = run_worker rounds (drain_one inputs now db).1
