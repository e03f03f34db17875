-- ===== src/Master/Db/Jobs/Retries.antt =====
-- The retries of the embedding queue are bounded.
use vaultmcp.Prelude.{ℕ, zero, suc, ◌+◌, ◌-◌, ◌≤◌, ◌<◌}
use vaultmcp.Prelude.{◌≡◌, refl, sym, ◌∙◌, inl, inr}
use vaultmcp.Prelude.{Bool, true, ◌&&◌, Option, none, some, List, [], ◌∷◌}
use vaultmcp.Prelude.{map, arith, Option-cases}
use vaultmcp.Prelude.{◌==◌, nat_Eq, list_Eq, option_Eq, nat_eq_iff}
use vaultmcp.Prelude.{length, select, any}
use vaultmcp.Prelude.{sort_by}
use vaultmcp.Prelude.Sorting.Laws.{any-select, any-sort_by}
use vaultmcp.Master.Db.Rows.{Db, JobRow}
use vaultmcp.Master.Db.Jobs.{Claim, pending, sooner, next_job, attempt, pop_pending_embedding_job}

-- The attempts that the jobs still have.
abbrev pub attempts_left : ℕ → List JobRow → ℕ
attempts_left limit [] = 0
attempts_left limit (j ∷ js) = (limit - j.attempts) + attempts_left limit js

-- The claims of `n` calls, one after the other.
abbrev pub pops : ℕ → ℕ → Db → List Claim
pops zero limit db = []
pops (suc n) limit db = elim (pop_pending_embedding_job limit db).0 [
  | none ↦ []
  | some c ↦ c ∷ pops n limit (pop_pending_embedding_job limit db).1
]

attempts_left-attempt :
    (limit id : ℕ) (js : List JobRow)
    → attempts_left limit (map (attempt id) js) ≤ attempts_left limit js
attempts_left-attempt limit id [] = omega arith
attempts_left-attempt limit id (j ∷ js) = ground (arith, attempts_left-attempt limit id js)

spent_attempt :
    (limit id : ℕ) (js : List JobRow)
    → any (λ j. pending limit j && j.id == id) js ≡ true
    → attempts_left limit (map (attempt id) js) < attempts_left limit js
spent_attempt limit id [] h = absurd (ground arith)
spent_attempt limit id (j ∷ js) h =
    ground (arith, spent_attempt limit id js, attempts_left-attempt limit id js)

next_job_is_pending :
    (limit : ℕ) (db : Db) (j : JobRow)
    → next_job limit db ≡ some j
    → any (λ (x : JobRow). pending limit x && x.id == j.id) db.embedding_jobs ≡ true
unfolding next_job
next_job_is_pending limit db j h =
    let p : JobRow → Bool = λ x. x.id == j.id in
    let waiting = select (pending limit) db.embedding_jobs in
    sym (any-sort_by p sooner waiting ∙ any-select p (pending limit) db.embedding_jobs)
    ∙ first (sort_by sooner waiting) h
  where
    first :
        (js : List JobRow)
        → (elim js [ [] ↦ none | k ∷ ks ↦ some k ]) ≡ some j
        → any (λ (x : JobRow). x.id == j.id) js ≡ true
    first [] e = cc
    first (k ∷ ks) e = ground (arith, e, nat_eq_iff k.id j.id)

jobs_after :
    (limit : ℕ) (db : Db) (j : JobRow)
    → next_job limit db ≡ some j
    → (pop_pending_embedding_job limit db).1.embedding_jobs ≡ map (attempt j.id) db.embedding_jobs
unfolding pop_pending_embedding_job
jobs_after limit db j q = rw (q, pop_pending_embedding_job) refl

pub claimed_spends :
    (limit : ℕ) (db : Db) (c : Claim)
    → (pop_pending_embedding_job limit db).0 ≡ some c
    → attempts_left limit (pop_pending_embedding_job limit db).1.embedding_jobs
      < attempts_left limit db.embedding_jobs
unfolding pop_pending_embedding_job
claimed_spends limit db c h = elim (Option-cases (next_job limit db)) [
  | inl q ↦ absurd (ground (arith, q, h))
  | inr (j, q) ↦
      rw (jobs_after limit db j q)
        (spent_attempt limit j.id db.embedding_jobs (next_job_is_pending limit db j q))
]

-- However often the worker asks, it is given at most as many claims as there are attempts left in the
-- queue, so a job that always fails is not retried for ever.
pub claims_are_bounded :
    (n limit : ℕ) (db : Db) → length (pops n limit db) ≤ attempts_left limit db.embedding_jobs
claims_are_bounded zero limit db = omega arith
claims_are_bounded (suc n) limit db =
    let after = (pop_pending_embedding_job limit db).1 in
    go after (claims_are_bounded n limit after) (pop_pending_embedding_job limit db).0
      (claimed_spends limit db)
  where
    go :
        (after : Db)
        → length (pops n limit after) ≤ attempts_left limit after.embedding_jobs
        → (o : Option Claim)
        → ((c : Claim)
            → o ≡ some c
            → attempts_left limit after.embedding_jobs < attempts_left limit db.embedding_jobs)
        → length (elim o [ none ↦ [] | some c ↦ c ∷ pops n limit after ])
          ≤ attempts_left limit db.embedding_jobs
    go after le none spends = omega arith
    go after le (some c) spends = omega (arith, le, spends c refl)
