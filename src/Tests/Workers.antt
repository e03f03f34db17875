-- ===== src/Tests/Workers.antt =====
-- The embedding worker at concrete inputs.
use vaultmcp.Prelude.{zero, suc}
use vaultmcp.Prelude.{ℕ, ◌≤◌}
use vaultmcp.Prelude.{◌≡◌, refl}
use vaultmcp.Prelude.{true, none, some, List, [], ◌∷◌}
use vaultmcp.Prelude.{arith}
use vaultmcp.Prelude.{nat_Eq, list_Eq, option_Eq}
use vaultmcp.Prelude.{length}
use vaultmcp.Prelude.{ok, err}
use vaultmcp.Prelude.{codes}
use vaultmcp.Shared.Value.{Value, text, dict, field, end, list, cons, nil, null}
use vaultmcp.Master.Db.Pages.{write_page}
use vaultmcp.Master.Db.Jobs.{Claim, pop_pending_embedding_job}
use vaultmcp.Master.Db.Jobs.Retries.{attempts_left}
use vaultmcp.Master.Embeddings.Hashed.{Numbers}
use vaultmcp.Master.Embeddings.Provider.{EmbeddingProvider, http_failed}
use vaultmcp.Master.Embeddings.Compatible.{
  Post, ProviderSettings, build_provider, compatible_provider,
}
use vaultmcp.Master.Embeddings.Compatible.Replies.{length-embed}
use vaultmcp.Master.Embeddings.Worker.{max_attempts, WorkerInputs, drain_one, run_worker}
use vaultmcp.Master.Embeddings.Worker.Idle.{worker_goes_idle}
use vaultmcp.Tests.Data.{one_page}

-- Whole numbers in place of floats.
abbrev whole : Numbers
whole = record {
  Float = ℕ;
  scaled = λ n. n;
  square_sum = λ v. 1;
  root = λ n. n;
  is_positive = λ n. true;
  over = λ a b. a;
}

abbrev two_values : Value
two_values = dict (
    field (text (codes "data"))
      (list
        (cons (dict (field (text (codes "embedding")) (list (cons null (cons null nil))) end)) nil))
      end)

abbrev gateway : Post
gateway url key model content = some (200, two_values)

abbrev gateway_settings : ProviderSettings
gateway_settings = record {
  name = codes "openai-compat";
  base_url = some (codes "http://x/");
  model = some (codes "m");
  api_key = none;
  dim = 2;
}

abbrev two_fives : List ℕ
two_fives = 5 ∷ 5 ∷ []

abbrev gateway_provider : EmbeddingProvider ℕ
gateway_provider =
    compatible_provider whole (λ s. 7 ∷ []) gateway (λ v. some 5) (codes "http://x/") (codes "m")
      none 2

gateway_answers : gateway_provider.embed (codes "Hi") ≡ ok two_fives
unfolding compatible_provider
gateway_answers = refl

gateway_is_built :
    build_provider whole (λ s. 7 ∷ []) gateway (λ v. some 5) gateway_settings ≡ ok gateway_provider
unfolding build_provider
gateway_is_built = refl

length-embed_example : length two_fives ≡ gateway_provider.dim
length-embed_example =
    length-embed whole (λ s. 7 ∷ []) gateway (λ v. some 5) gateway_settings gateway_provider
      (codes "Hi") two_fives (λ s. (7, [], refl)) gateway_is_built gateway_answers

abbrev failing : WorkerInputs
failing = record {
  Float = ℕ;
  show = λ n. [];
  message = λ e. codes "failed";
  provider = record { name = codes "p"; dim = 1024; embed = λ t. err http_failed };
}

abbrev home_claim : Claim
home_claim = record { job_id = 1; path = codes "a.md"; version = 1; content = codes "one" }

abbrev fives : ℕ → List ℕ
fives zero = []
fives (suc n) = 5 ∷ fives n

abbrev storing : WorkerInputs
storing = record failing {
  provider = record { name = codes "p"; dim = 1024; embed = λ t. ok (fives 1024) };
}

-- The vector of the column's dimension is stored, and the job is gone.
one_is_stored :
    (length (drain_one storing 9 one_page).1.embeddings ≡ 1)
    × (length (drain_one storing 9 one_page).1.embedding_jobs ≡ 0)
unfolding drain_one write_page
one_is_stored = (refl, refl)

abbrev five_rounds : List (ℕ × WorkerInputs)
five_rounds = (9, failing) ∷ (9, failing) ∷ (9, failing) ∷ (9, failing) ∷ (9, failing) ∷ []

five_are_left : attempts_left max_attempts one_page.embedding_jobs ≤ 5
unfolding write_page
five_are_left = omega arith

worker_goes_idle_example :
    (pop_pending_embedding_job max_attempts (run_worker five_rounds one_page)).0 ≡ none
worker_goes_idle_example = worker_goes_idle five_rounds one_page five_are_left
