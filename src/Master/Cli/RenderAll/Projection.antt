-- ===== src/Master/Cli/RenderAll/Projection.antt =====
-- After `render-all` the wiki directory shows the table.
use vaultmcp.Prelude.{suc, ◌≤◌, ◌<◌}
use vaultmcp.Prelude.{◌≡◌, refl, ap, ◌∙◌, ◌⊎◌, inl, inr}
use vaultmcp.Prelude.{Bool, true, ◌&&◌, Option, none, some, List, [], ◌∷◌}
use vaultmcp.Prelude.{arith, Bool-cases}
use vaultmcp.Prelude.{◌==◌, nat_Eq, list_Eq, option_Eq, list_eq_iff, beq_refl}
use vaultmcp.Prelude.{length, select, any, All}
use vaultmcp.Prelude.{Text}
use vaultmcp.Prelude.Sorting.Laws.{
  All-sort_by, any-select, any-sort_by, length-sort_by, length-select,
}
use vaultmcp.Prelude.{false}
use vaultmcp.Shared.FilePath.{temp_of, Parts, Disk, resolve, file_at}
use vaultmcp.Master.Render.{
  Rendered, rendered, escapes, os_error, render_to_disk, render_stays_inside,
}
use vaultmcp.Master.Db.Rows.{Db, PageRow}
use vaultmcp.Master.Db.Tables.{lookup}
use vaultmcp.Master.Db.Tables.Keys.{All-where}
use vaultmcp.Master.Db.Pages.{page_key, get_page}
use vaultmcp.Master.Db.Invariant.{IsConsistent}
use vaultmcp.Master.Db.Walk.{in_scope, path_before, walked, iter_all_pages}
use vaultmcp.Master.Db.Walk.Batches.{iter_all_pages-walked}
use vaultmcp.Master.Cli.RenderAll.{
  RenderCount, count_rendered, render_pages, render_all, rounds, batch_size,
}

abbrev one_rendered : RenderCount → RenderCount
one_rendered n = record n { rendered = suc n.rendered }

abbrev one_failed : RenderCount → RenderCount
one_failed n = record n { failed = suc n.failed }

failed_counted :
    (works : Text → Bool) (wiki_dir : Parts) (ps : List PageRow) (n : RenderCount) (disk : Disk)
    → n.failed ≤ (render_pages works wiki_dir ps n disk).0.failed
unfolding render_pages
failed_counted works wiki_dir [] n disk = omega arith
failed_counted works wiki_dir (p ∷ ps) n disk =
    go (failed_counted works wiki_dir ps (one_rendered n))
      (failed_counted works wiki_dir ps (one_failed n) disk)
      (render_to_disk (works p.path) wiki_dir p.path p.content disk)
  where
    after : Rendered → RenderCount
    after x =
        (render_pages works wiki_dir ps (count_rendered x n disk).0 (count_rendered x n disk).1).0

    go :
        ((d : Disk) → n.failed ≤ (render_pages works wiki_dir ps (one_rendered n) d).0.failed)
        → suc n.failed ≤ (render_pages works wiki_dir ps (one_failed n) disk).0.failed
        → (x : Rendered) → n.failed ≤ (after x).failed
    go r f (rendered d) = r d
    go r f escapes = omega (arith, f)
    go r f os_error = omega (arith, f)

-- A page that is written to the file has the content, and the file is not the temporary one of a page.
abbrev pub HasContent : Parts → Parts → Text → PageRow → Type 0
HasContent wiki_dir target content q =
    (resolve wiki_dir q.path ≡ target → q.content ≡ content)
    × ((temp_of (resolve wiki_dir q.path) == target) ≡ false)

module _ (works : Text → Bool) (wiki_dir target : Parts) (content : Text) where
  abbrev to_target : PageRow → Bool
  to_target q = resolve wiki_dir q.path == target

  -- The pages that are rendered without a failure leave the content in the file, if it is there or
  -- one of them has it.
  shows :
      (ps : List PageRow) (n : RenderCount) (disk : Disk)
      → All (HasContent wiki_dir target content) ps
      → (render_pages works wiki_dir ps n disk).0.failed ≡ 0
      → (file_at target disk ≡ some content) ⊎ (any to_target ps ≡ true)
      → file_at target (render_pages works wiki_dir ps n disk).1 ≡ some content
  unfolding render_pages
  shows [] n disk h f (inl e) = e
  shows [] n disk h f (inr e) = cc
  shows (p ∷ ps) n disk h f e =
      go (λ d. shows ps (one_rendered n) d h.1)
        (λ z. omega (arith, z, failed_counted works wiki_dir ps (one_failed n) disk))
        (render_to_disk (works p.path) wiki_dir p.path p.content disk) refl f
    where
      after : Rendered → RenderCount × Disk
      after x =
          render_pages works wiki_dir ps (count_rendered x n disk).0 (count_rendered x n disk).1

      go :
          ((d : Disk)
            → (render_pages works wiki_dir ps (one_rendered n) d).0.failed ≡ 0
            → (file_at target d ≡ some content) ⊎ (any to_target ps ≡ true)
            → file_at target (render_pages works wiki_dir ps (one_rendered n) d).1 ≡ some content)
          → ((render_pages works wiki_dir ps (one_failed n) disk).0.failed ≡ 0 → ⊥)
          → (x : Rendered) → render_to_disk (works p.path) wiki_dir p.path p.content disk ≡ x
          → (after x).0.failed ≡ 0
          → file_at target (after x).1 ≡ some content
      go rest stuck (rendered d) q z =
          let stored =
            (render_stays_inside (works p.path) wiki_dir p.path p.content disk d target q).1 in
          rest d z
            (ground (arith, stored, e, h.0.0, h.0.1, list_eq_iff (resolve wiki_dir p.path) target))
      go rest stuck escapes q z = absurd (stuck z)
      go rest stuck os_error q z = absurd (stuck z)

enough_rounds : (prefix : Option Text) (db : Db) → length (walked prefix db) < rounds db
unfolding walked
enough_rounds prefix db = omega (
  arith,
  length-sort_by path_before (select (in_scope prefix) db.pages),
  length-select (in_scope prefix) db.pages,
)

-- The command walks the pages in scope, each once, in path order.
pub rendered_pages :
    (prefix : Option Text) (db : Db)
    → IsConsistent db
    → iter_all_pages (rounds db) prefix batch_size none db ≡ walked prefix db
rendered_pages prefix db c =
    iter_all_pages-walked (rounds db) prefix batch_size db c (omega arith) (enough_rounds prefix db)

module _ (prefix : Option Text) (path : Text) where
  abbrev seen : PageRow → Bool
  seen q = in_scope prefix q && path == q.path

  found_is_seen :
      (rows : List PageRow) (p : PageRow)
      → lookup page_key path rows ≡ some p
      → in_scope prefix p ≡ true
      → any seen rows ≡ true
  unfolding lookup
  found_is_seen [] p h s = cc
  found_is_seen (q ∷ rows) p h s = elim (Bool-cases (q.path == path)) [
    | inl e ↦ ground (arith, h, e, s, list_eq_iff q.path path, list_eq_iff path q.path)
    | inr e ↦ ground (arith, h, e, found_is_seen rows p, s)
  ]

  reaches_target :
      (wiki_dir : Parts) (rows : List PageRow)
      → any seen rows ≡ true
      → any (λ q. in_scope prefix q && resolve wiki_dir q.path == resolve wiki_dir path) rows ≡ true
  reaches_target wiki_dir [] h = cc
  reaches_target wiki_dir (q ∷ rows) h = elim (Bool-cases (path == q.path)) [
    | inl e ↦ ground (
      arith,
      h,
      reaches_target wiki_dir rows,
      beq_refl (resolve wiki_dir path),
      ap (resolve wiki_dir) ((list_eq_iff path q.path).0 e),
    )
    | inr e ↦ ground (arith, h, e, reaches_target wiki_dir rows)
  ]

-- If `render-all` ends with exit status 0 on consistent tables, the file of each page in scope holds
-- the page's content, where no page with another content has the same file, and the file is not the
-- temporary one of a page.
pub render_all_projects :
    (works : Text → Bool) (wiki_dir : Parts) (prefix : Option Text) (db : Db) (disk : Disk)
    (path : Text) (p : PageRow)
    → IsConsistent db
    → (render_all works wiki_dir prefix db disk).1 ≡ 0
    → get_page path db ≡ some p
    → in_scope prefix p ≡ true
    → All (HasContent wiki_dir (resolve wiki_dir path) p.content) db.pages
    → file_at (resolve wiki_dir path) (render_all works wiki_dir prefix db disk).2 ≡ some p.content
unfolding render_all walked get_page
render_all_projects works wiki_dir prefix db disk path p c e g s h =
    let target = resolve wiki_dir path in
    let none_yet : RenderCount = record { rendered = 0; failed = 0 } in
    let q = rendered_pages prefix db c in
    rw (q) (
      shows works wiki_dir target p.content (walked prefix db) none_yet disk
        (All-sort_by path_before (HasContent wiki_dir target p.content)
          (select (in_scope prefix) db.pages)
          (All-where (HasContent wiki_dir target p.content) (in_scope prefix) db.pages h))
        (ground (arith, e, q))
        (inr (
          any-sort_by (to_target works wiki_dir target p.content) path_before
            (select (in_scope prefix) db.pages)
          ∙ any-select (to_target works wiki_dir target p.content) (in_scope prefix) db.pages
          ∙ reaches_target prefix path wiki_dir db.pages
              (found_is_seen prefix path db.pages p g s))))
