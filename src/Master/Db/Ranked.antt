-- ===== src/Master/Db/Ranked.antt =====
-- `search_pages`, `search_pages_semantic` and `neighbors_of` of src/vaultmcp/master/db.py. What full-text
-- search and pgvector compute of one row is `Ranker`.
pub mod Filters
use vaultmcp.Prelude.{ℕ, zero, suc, ◌+◌, ◌-◌, ◌*◌, ◌/◌, ◌%◌, ◌^◌, ◌≤◌, ◌<◌, min, max, String}
use vaultmcp.Prelude.{◌≡◌, refl, sym, ap, ◌∙◌, fun_ext, ◌≢◌, ◌↔◌, ◌⊎◌, inl, inr}
use vaultmcp.Prelude.{Bool, true, false, not, ◌&&◌, ◌||◌, Option, none, some, List, [], ◌∷◌, ◌++◌}
use vaultmcp.Prelude.{
  map, reverse, arith, ltb, leb, nat_eq, if◌then◌else◌, Bool-cases, Option-cases,
}
use vaultmcp.Prelude.{
  Eq, ◌==◌, nat_Eq, list_Eq, option_Eq, list_eq_iff, option_eq_iff, nat_eq_iff, beq_refl,
}
use vaultmcp.Prelude.{
  length, take, drop, last?, select, find, any, all, All, length-append, length-take,
}
use vaultmcp.Prelude.{
  take_all, place, sort_by, Result, ok, err, ◌>>=◌, ◌>>◌, guard, bind-ok, Result-cases,
}
use vaultmcp.Prelude.{
  Text, codes, starts_with, is_space, lstrip, rstrip, strip, partition, split, join, text_le,
}
use vaultmcp.Prelude.{subst}
use vaultmcp.Master.Db.Rows.{Db, PageRow, EmbeddingRow}
use vaultmcp.Master.Db.Tables.{lookup}
use vaultmcp.Master.Db.Like.{like_prefix}
use vaultmcp.Master.Db.Pages.{page_key, given}
use vaultmcp.Master.Db.Jobs.{embedding_key}

-- `websearch_to_tsquery` with `ts_rank_cd` (none if the row does not match) and `ts_headline`; the cosine
-- distance of two vectors; `1 - d`; and the order of scores.
pub record Ranker : Type 1 where
  pub Score : Type 0
  pub text_rank : Text → PageRow → Option Score
  pub headline : Text → PageRow → Text
  pub distance : Text → Text → Score
  pub similarity : Score → Score
  pub at_most : Score → Score → Bool
  pub same : Score → Score → Bool

module _ (ranker : Ranker) where
  open ranker use {Score, text_rank, headline, distance, similarity, at_most, same}

  pub record Hit : Type 0 where
    pub page : PageRow
    pub score : Score
    pub snippet : Text

  -- `path LIKE .. AND type = ..`
  unfoldable pub passes : Option Text → Option Text → PageRow → Bool
  unfolding like_prefix
  passes prefix type_filter p =
      given prefix (λ s. like_prefix p.path s) && given type_filter (λ t. p.page_type == t)

  abbrev pub hit_of : Text → PageRow → List Hit
  hit_of query p = elim (text_rank query p) [
    | none ↦ []
    | some score ↦ record { page = p; score = score; snippet = headline query p } ∷ []
  ]

  unfoldable pub hits : Text → List PageRow → List Hit
  hits query [] = []
  hits query (p ∷ ps) = hit_of query p ++ hits query ps

  -- `ORDER BY score DESC, updated DESC`
  unfoldable pub ranked_before : Hit → Hit → Bool
  ranked_before a b =
      if same a.score b.score then leb b.page.updated a.page.updated else at_most b.score a.score

  unfoldable pub search_pages : Text → Option Text → Option Text → ℕ → Db → List Hit
  unfolding hits passes ranked_before sort_by
  search_pages query prefix type_filter limit db =
      take limit (sort_by ranked_before (hits query (select (passes prefix type_filter) db.pages)))

  -- An embedding, its page and the distance from a vector.
  pub record Near : Type 0 where
    pub page : PageRow
    pub far : Score

  abbrev pub near_of : Text → EmbeddingRow → Option PageRow → List Near
  near_of vector e none = []
  near_of vector e (some p) = record { page = p; far = distance e.embedding vector } ∷ []

  -- `FROM embeddings e JOIN pages p ON p.path = e.path`
  unfoldable pub joined_near : Text → List PageRow → List EmbeddingRow → List Near
  unfolding lookup
  joined_near vector pages [] = []
  joined_near vector pages (e ∷ es) =
      near_of vector e (lookup page_key e.path pages) ++ joined_near vector pages es

  unfoldable pub nearer : Near → Near → Bool
  nearer a b = at_most a.far b.far

  abbrev pub as_hit : Near → Hit
  as_hit n = record { page = n.page; score = similarity n.far; snippet = [] }

  unfoldable pub search_pages_semantic : Text → Option Text → Option Text → ℕ → Db → List Hit
  unfolding joined_near passes nearer sort_by
  search_pages_semantic vector prefix type_filter limit db = map as_hit (
      take limit (
        sort_by nearer (
          select (λ (n : Near). passes prefix type_filter n.page)
            (joined_near vector db.pages db.embeddings))))

  unfoldable pub neighbors_of : Text → ℕ → Db → List Hit
  unfolding joined_near nearer sort_by lookup
  neighbors_of path limit db = elim (lookup embedding_key path db.embeddings) [
    | none ↦ []
    | some base ↦ map as_hit (
        take limit (
          sort_by nearer (
            joined_near base.embedding db.pages
              (select (λ (e : EmbeddingRow). not (e.path == path)) db.embeddings))))
  ]
