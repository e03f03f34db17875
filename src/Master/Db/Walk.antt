-- ===== src/Master/Db/Walk.antt =====
-- `Database.iter_all_pages` of src/vaultmcp/master/db.py: the pages in path order, a batch of rows at a
-- time. The tables are taken to stay as they are during the walk.
pub mod Batches
use vaultmcp.Prelude.{ℕ, zero, suc, ◌+◌, ◌≤◌, ◌<◌, min}
use vaultmcp.Prelude.{◌≡◌, refl, sym, ap, ◌∙◌, inl, inr, ◌≢◌}
use vaultmcp.Prelude.{Bool, true, false, not, ◌&&◌, Option, none, some, List, [], ◌∷◌, ◌++◌}
use vaultmcp.Prelude.{arith, ltb, if◌then◌else◌, Bool-cases, Option-cases}
use vaultmcp.Prelude.{◌==◌, nat_Eq, list_Eq, option_Eq, list_eq_iff}
use vaultmcp.Prelude.{length, take, drop, last?, select, take_all, length-take, All}
use vaultmcp.Prelude.{sort_by}
use vaultmcp.Prelude.{Text, text_le}
use vaultmcp.Prelude.Texts.Order.{text_le_total, text_le_trans, text_le_refl, text_le_antisym}
use vaultmcp.Prelude.Sorting.Laws.{IsSorted, sort_by-IsSorted, select-sort_by}
use vaultmcp.Master.Db.Rows.{Db, PageRow}
use vaultmcp.Master.Db.Pages.{page_key, given}
use vaultmcp.Master.Db.Like.{like_prefix}
use vaultmcp.Master.Db.Tables.Keys.{Pairwise, Pairwise-where}
use vaultmcp.Master.Db.Tables.Keyset.{
  Pairwise-sort_by, Behind, select-last, last-drop, drop-drop, take-then_drop, drop_all,
}
use vaultmcp.Master.Db.Invariant.{IsConsistent}

-- `ORDER BY path ASC`
unfoldable pub path_before : PageRow → PageRow → Bool
path_before a b = text_le a.path b.path

-- `path > $n`
unfoldable pub path_after : PageRow → PageRow → Bool
path_after p q = not (text_le q.path p.path)

abbrev pub beyond : Option PageRow → PageRow → Bool
beyond none q = true
beyond (some p) q = path_after p q

-- The pages that the walk is to see.
unfoldable pub in_scope : Option Text → PageRow → Bool
unfolding like_prefix
in_scope prefix p = given prefix (λ s. like_prefix p.path s)

-- One query. The cursor is the last row so far, of which only the path is used.
unfoldable pub fetch_batch : Option Text → ℕ → Option PageRow → Db → List PageRow
unfolding sort_by path_before path_after in_scope
fetch_batch prefix batch cursor db =
    take batch (sort_by path_before (select (λ p. in_scope prefix p && beyond cursor p) db.pages))

-- The end of a round: no row ends the walk, a batch that is not full ends it after its rows.
unfoldable pub next_rows : ℕ → List PageRow → List PageRow → List PageRow
next_rows batch [] rest = []
next_rows batch (r ∷ rows) rest =
    if ltb (length (r ∷ rows)) batch then r ∷ rows else r ∷ rows ++ rest

unfoldable pub iter_all_pages : ℕ → Option Text → ℕ → Option PageRow → Db → List PageRow
unfolding fetch_batch next_rows
iter_all_pages zero prefix batch cursor db = []
iter_all_pages (suc fuel) prefix batch cursor db =
    let rows = fetch_batch prefix batch cursor db in
    next_rows batch rows (iter_all_pages fuel prefix batch (last? rows) db)

-- The same in one query.
unfoldable pub walked : Option Text → Db → List PageRow
unfolding in_scope path_before sort_by
walked prefix db = sort_by path_before (select (in_scope prefix) db.pages)
