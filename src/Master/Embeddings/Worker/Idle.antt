-- ===== src/Master/Embeddings/Worker/Idle.antt =====
-- The worker comes to an end of its queue.
use vaultmcp.Prelude.{ℕ, ◌≤◌, ◌<◌}
use vaultmcp.Prelude.{◌≡◌, refl, ap, ◌∙◌, inl, inr}
use vaultmcp.Prelude.{Bool, not, Option, none, some, List, [], ◌∷◌}
use vaultmcp.Prelude.{map, arith, Bool-cases, Option-cases}
use vaultmcp.Prelude.{◌==◌, nat_Eq, list_Eq, option_Eq}
use vaultmcp.Prelude.{length, select}
use vaultmcp.Prelude.{Result, ok, err, Result-cases}
use vaultmcp.Prelude.{Text}
use vaultmcp.Prelude.{subst}
use vaultmcp.Master.Db.Rows.{Db, JobRow, EmbeddingRow}
use vaultmcp.Master.Db.Pages.{get_page}
use vaultmcp.Master.Db.Jobs.{
  Claim, with_error, pop_pending_embedding_job, complete_embedding_job, fail_embedding_job,
}
use vaultmcp.Master.Db.Jobs.Retries.{attempts_left, claimed_spends}
use vaultmcp.Master.Embeddings.Worker.{
  max_attempts, column_dimension, JobError, page_is_gone, WorkerInputs, embedding_row, or_error,
  store_vector, process, cut, settle, handle_claim, drain_one, run_worker,
}
use vaultmcp.Master.Embeddings.Worker.Settling.{unclaimed_db, claimed_db, attempted}

attempts_left-with_error :
    (limit id : ℕ) (error : Text) (js : List JobRow)
    → attempts_left limit (map (with_error id error) js) ≡ attempts_left limit js
attempts_left-with_error limit id error [] = refl
attempts_left-with_error limit id error (j ∷ js) =
    ground (arith, attempts_left-with_error limit id error js)

attempts_left-select :
    (limit : ℕ) (t : JobRow → Bool) (js : List JobRow)
    → attempts_left limit (select t js) ≤ attempts_left limit js
attempts_left-select limit t [] = omega arith
attempts_left-select limit t (j ∷ js) = ground (arith, attempts_left-select limit t js)

complete_spends_none :
    (limit now id : ℕ) (e : EmbeddingRow) (db db' : Db)
    → complete_embedding_job now id e db ≡ some db'
    → attempts_left limit db'.embedding_jobs ≤ attempts_left limit db.embedding_jobs
unfolding complete_embedding_job
complete_spends_none limit now id e db db' h = elim (Option-cases (get_page e.path db)) [
  | inl q ↦ absurd (ground (arith, h, q))
  | inr (p, q) ↦
      ground (
        arith,
        h,
        q,
        attempts_left-select limit (λ (j : JobRow). not (j.id == id)) db.embedding_jobs,
      )
]

module _ (inputs : WorkerInputs) (now : ℕ) where
  open inputs use {Float, show, message, provider}

  abbrev Fewer : Db → Result JobError Db → Type 0
  Fewer db (ok db') =
      attempts_left max_attempts db'.embedding_jobs ≤ attempts_left max_attempts db.embedding_jobs
  Fewer db (err e) = Unit

  or_error-Fewer :
      (db : Db) (o : Option Db)
      → ((db' : Db)
          → o ≡ some db'
          → attempts_left max_attempts db'.embedding_jobs
            ≤ attempts_left max_attempts db.embedding_jobs)
      → Fewer db (or_error inputs page_is_gone o)
  or_error-Fewer db none h = tt
  or_error-Fewer db (some db') h = h db' refl

  store-Fewer : (c : Claim) (v : List Float) (db : Db) → Fewer db (store_vector inputs now c v db)
  unfolding store_vector
  store-Fewer c v db = elim (Bool-cases (length v == provider.dim)) [
    | inr e ↦ rw e tt
    | inl e ↦ elim (Bool-cases (length v == column_dimension)) [
      | inr k ↦ rw (e, k) tt
      | inl k ↦
          rw (e, k)
            (or_error-Fewer db (complete_embedding_job now c.job_id (embedding_row inputs c v) db)
              (complete_spends_none max_attempts now c.job_id (embedding_row inputs c v) db))
    ]
  ]

  process-Fewer : (c : Claim) (db : Db) → Fewer db (process inputs now c db)
  unfolding process
  process-Fewer c db = elim (Result-cases (provider.embed c.content)) [
    | inl (v, q) ↦ rw (q, process) (store-Fewer c v db)
    | inr (e, q) ↦ rw (q, process) tt
  ]

  settle_spends_none :
      (c : Claim) (db : Db) (r : Result JobError Db)
      → Fewer db r
      → attempts_left max_attempts (settle inputs c db r).embedding_jobs
        ≤ attempts_left max_attempts db.embedding_jobs
  unfolding settle fail_embedding_job
  settle_spends_none c db (ok db') h = h
  settle_spends_none c db (err e) h =
      omega (arith, attempts_left-with_error max_attempts c.job_id (cut inputs e) db.embedding_jobs)

  -- A round that takes a job spends an attempt.
  drain_one_spends :
      (db : Db) (c : Claim)
      → (pop_pending_embedding_job max_attempts db).0 ≡ some c
      → attempts_left max_attempts (drain_one inputs now db).1.embedding_jobs
        < attempts_left max_attempts db.embedding_jobs
  unfolding drain_one handle_claim
  drain_one_spends db c h =
      let pop = claimed_db max_attempts db c h in
      let turn : drain_one inputs now db ≡ handle_claim inputs now (some c, attempted c db) =
        ap (handle_claim inputs now) pop in
      let spent : attempts_left max_attempts (attempted c db).embedding_jobs
          < attempts_left max_attempts db.embedding_jobs =
        subst
          (λ (x : Option Claim × Db).
            attempts_left max_attempts x.1.embedding_jobs
            < attempts_left max_attempts db.embedding_jobs)
          pop (claimed_spends max_attempts db c h) in
      rw turn (
        omega (
          arith,
          spent,
          settle_spends_none c (attempted c db) (process inputs now c (attempted c db))
              (process-Fewer c (attempted c db)),
        ))

  idle_drain :
      (db : Db)
      → (pop_pending_embedding_job max_attempts db).0 ≡ none
      → (drain_one inputs now db).1 ≡ db
  unfolding drain_one handle_claim
  idle_drain db h =
      go (pop_pending_embedding_job max_attempts db) h ∙ unclaimed_db max_attempts db h
    where
      go : (x : Option Claim × Db) → x.0 ≡ none → (handle_claim inputs now x).1 ≡ x.1
      go (none, d) e = refl
      go (some c, d) e = cc

idle_worker :
    (rounds : List (ℕ × WorkerInputs)) (db : Db)
    → (pop_pending_embedding_job max_attempts db).0 ≡ none
    → run_worker rounds db ≡ db
unfolding run_worker
idle_worker [] db h = refl
idle_worker ((now, inputs) ∷ rounds) db h =
    ap (run_worker rounds) (idle_drain inputs now db h) ∙ idle_worker rounds db h

-- After as many rounds as the jobs have attempts left, whatever the providers answer in them, no job is
-- pending: each has been embedded or has used up its five attempts.
pub worker_goes_idle :
    (rounds : List (ℕ × WorkerInputs)) (db : Db)
    → attempts_left max_attempts db.embedding_jobs ≤ length rounds
    → (pop_pending_embedding_job max_attempts (run_worker rounds db)).0 ≡ none
unfolding run_worker
worker_goes_idle [] db l = elim (Option-cases (pop_pending_embedding_job max_attempts db).0) [
  | inl q ↦ q
  | inr (c, q) ↦ absurd (omega (arith, claimed_spends max_attempts db c q))
]
worker_goes_idle ((now, inputs) ∷ rounds) db l =
    elim (Option-cases (pop_pending_embedding_job max_attempts db).0) [
      | inl q ↦
          ap (λ (d : Db). (pop_pending_embedding_job max_attempts d).0)
            (idle_worker ((now, inputs) ∷ rounds) db q)
          ∙ q
      | inr (c, q) ↦
          worker_goes_idle rounds (drain_one inputs now db).1
            (omega (arith, l, drain_one_spends inputs now db c q))
    ]
