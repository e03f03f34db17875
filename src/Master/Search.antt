-- ===== src/Master/Search.antt =====
-- `handle_search` of src/vaultmcp/master/tools.py. The rankers are Postgres's full-text search and
-- pgvector, the embedder is the provider's: fields of `Engine`.
use vaultmcp.Prelude.{ℕ, ◌*◌, max}
use vaultmcp.Prelude.{Option, none, some, List}
use vaultmcp.Prelude.{map}
use vaultmcp.Prelude.{nat_Eq, list_Eq, option_Eq}
use vaultmcp.Prelude.{Result, ok, err}
use vaultmcp.Prelude.{Text, codes}
use vaultmcp.Master.Db.Rows.{Db}
use vaultmcp.Master.Errors.{ToolError, validation_failed, no_embedder}
use vaultmcp.Master.Fusion.{Floats, SearchRow, Entry, reciprocal_rank_fusion}

pub data Mode : Type 0 where
  lexical semantic hybrid : Mode

pub record SearchInput : Type 0 where
  pub query : Text
  pub prefix : Option Text
  pub page_type : Option Text
  pub mode : Mode
  pub limit : ℕ

pub record Engine : Type 1 where
  pub floats : Floats
  pub Vector : Type 0
  pub search_pages : Db → Text → Option Text → Option Text → ℕ → List (Entry floats)
  pub search_pages_semantic : Db → Vector → Option Text → Option Text → ℕ → List (Entry floats)
  pub embedder : Option (Text → Vector)

abbrev pub mode_name : Mode → Text
mode_name lexical = codes "lexical"
mode_name semantic = codes "semantic"
mode_name hybrid = codes "hybrid"

module _ (engine : Engine) where
  open engine use {floats, Vector, search_pages, search_pages_semantic, embedder}

  abbrev rows_of : List (Entry floats) → List SearchRow
  rows_of entries = map (λ e. e.row) entries

  -- The window of either ranker is deeper than the limit.
  abbrev pub window : ℕ → ℕ
  window limit = max (limit * 4) 50

  abbrev with_vector : Db → SearchInput → Vector → List (Entry floats)
  with_vector db inp v = elim inp.mode [
    | hybrid ↦
        reciprocal_rank_fusion floats
          (rows_of (search_pages db inp.query inp.prefix inp.page_type (window inp.limit)))
          (rows_of (search_pages_semantic db v inp.prefix inp.page_type (window inp.limit))) 60
          inp.limit
    | _ ↦ search_pages_semantic db v inp.prefix inp.page_type inp.limit
  ]

  abbrev embedded :
      Db → SearchInput → Option (Text → Vector) → Result ToolError (List (Entry floats))
  embedded db inp none = err (validation_failed (no_embedder (mode_name inp.mode)))
  embedded db inp (some embed) = ok (with_vector db inp (embed inp.query))

  unfoldable pub handle_search : Db → SearchInput → Result ToolError (List (Entry floats))
  unfolding reciprocal_rank_fusion
  handle_search db inp = elim inp.mode [
    | lexical ↦ ok (search_pages db inp.query inp.prefix inp.page_type inp.limit)
    | _ ↦ embedded db inp embedder
  ]
