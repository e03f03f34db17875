-- ===== src/Master/Fusion.antt =====
-- `_reciprocal_rank_fusion` of src/vaultmcp/master/tools.py, over the floats that it adds and compares.
pub mod Ranking
use vaultmcp.Prelude.{ℕ, suc, ◌+◌}
use vaultmcp.Prelude.{Bool, List, [], ◌∷◌}
use vaultmcp.Prelude.{if◌then◌else◌}
use vaultmcp.Prelude.{◌==◌, nat_Eq, list_Eq, option_Eq}
use vaultmcp.Prelude.{take}
use vaultmcp.Prelude.{sort_by}
use vaultmcp.Prelude.{Text}

-- A row of either search: what it reads besides the path and the score.
pub record SearchRow : Type 0 where
  pub path : Text
  pub page_type : Text
  pub owners : List Text
  pub updated : ℕ
  pub version : ℕ
  pub snippet : Text

-- The floats: `1.0 / n`, addition and the order.
pub record Floats : Type 1 where
  pub Float : Type 0
  pub one_over : ℕ → Float
  pub plus : Float → Float → Float
  pub at_most : Float → Float → Bool

module _ (floats : Floats) where
  open floats use {Float, one_over, plus, at_most}

  pub record Entry : Type 0 where
    pub row : SearchRow
    pub score : Float

  -- `fused[path] = ..`: a dict keeps the place of a key that it has.
  unfoldable pub put_entry : Entry → List Entry → List Entry
  put_entry e [] = e ∷ []
  put_entry e (f ∷ fs) =
      let rest = put_entry e fs in if f.row.path == e.row.path then e ∷ fs else f ∷ rest

  -- `existing["score"] += ..`, or a new entry.
  unfoldable pub add_score : SearchRow → Float → List Entry → List Entry
  add_score r s [] = record { row = r; score = s } ∷ []
  add_score r s (f ∷ fs) =
      let rest = add_score r s fs in
      if f.row.path == r.path then record f { score = plus f.score s } ∷ fs else f ∷ rest

  unfoldable pub fuse_lexical : ℕ → ℕ → List SearchRow → List Entry → List Entry
  unfolding put_entry
  fuse_lexical k rank [] fused = fused
  fuse_lexical k rank (r ∷ rs) fused =
      fuse_lexical k (suc rank) rs
        (put_entry (record { row = r; score = one_over (k + rank) }) fused)

  unfoldable pub fuse_semantic : ℕ → ℕ → List SearchRow → List Entry → List Entry
  unfolding add_score
  fuse_semantic k rank [] fused = fused
  fuse_semantic k rank (r ∷ rs) fused =
      fuse_semantic k (suc rank) rs (add_score r (one_over (k + rank)) fused)

  unfoldable pub by_score : Entry → Entry → Bool
  by_score a b = at_most b.score a.score

  unfoldable pub reciprocal_rank_fusion : List SearchRow → List SearchRow → ℕ → ℕ → List Entry
  unfolding fuse_lexical fuse_semantic by_score sort_by
  reciprocal_rank_fusion lex_rows sem_rows k limit =
      take limit (sort_by by_score (fuse_semantic k 1 sem_rows (fuse_lexical k 1 lex_rows [])))
