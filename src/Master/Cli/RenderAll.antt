-- ===== src/Master/Cli/RenderAll.antt =====
-- The command `render-all`: every page of the table is written to the wiki directory again.
pub mod Projection
use vaultmcp.Prelude.{ℕ, zero, suc, ◌+◌, ◌-◌, ◌*◌, ◌/◌, ◌%◌, ◌^◌, ◌≤◌, ◌<◌, min, max, String}
use vaultmcp.Prelude.{◌≡◌, refl, sym, ap, ◌∙◌, fun_ext, ◌≢◌, ◌↔◌, ◌⊎◌, inl, inr}
use vaultmcp.Prelude.{Bool, true, false, not, ◌&&◌, ◌||◌, Option, none, some, List, [], ◌∷◌, ◌++◌}
use vaultmcp.Prelude.{
  map, reverse, arith, ltb, leb, nat_eq, if◌then◌else◌, Bool-cases, Option-cases,
}
use vaultmcp.Prelude.{
  Eq, ◌==◌, nat_Eq, list_Eq, option_Eq, list_eq_iff, option_eq_iff, nat_eq_iff, beq_refl,
}
use vaultmcp.Prelude.{
  length, take, drop, last?, select, find, any, all, All, length-append, length-take,
}
use vaultmcp.Prelude.{
  take_all, place, sort_by, Result, ok, err, ◌>>=◌, ◌>>◌, guard, bind-ok, Result-cases,
}
use vaultmcp.Prelude.{
  Text, codes, starts_with, is_space, lstrip, rstrip, strip, partition, split, join, text_le,
}
use vaultmcp.Shared.FilePath.{Parts, Disk}
use vaultmcp.Master.Render.{Rendered, rendered, escapes, os_error, render_to_disk}
use vaultmcp.Master.Db.Rows.{Db, PageRow}
use vaultmcp.Master.Db.Walk.{iter_all_pages}

pub record RenderCount : Type 0 where
  pub rendered : ℕ
  pub failed : ℕ

-- `except (OSError, ValueError)`: a path that escapes is a `ValueError`.
unfoldable pub count_rendered : Rendered → RenderCount → Disk → RenderCount × Disk
count_rendered (rendered disk') n disk = (record n { rendered = suc n.rendered }, disk')
count_rendered escapes n disk = (record n { failed = suc n.failed }, disk)
count_rendered os_error n disk = (record n { failed = suc n.failed }, disk)

-- The argument `works` tells for which pages the file system carries the write out.
unfoldable pub render_pages :
    (Text → Bool) → Parts → List PageRow → RenderCount → Disk → RenderCount × Disk
unfolding count_rendered render_to_disk
render_pages works wiki_dir [] n disk = (n, disk)
render_pages works wiki_dir (p ∷ ps) n disk =
    let (n', disk') =
      count_rendered (render_to_disk (works p.path) wiki_dir p.path p.content disk) n disk in
    render_pages works wiki_dir ps n' disk'

abbrev pub batch_size : ℕ
batch_size = 200

-- As many rounds as there are pages, and one more.
abbrev pub rounds : Db → ℕ
rounds db = suc (length db.pages)

-- What the command reports, the exit status and the files after it.
unfoldable pub render_all : (Text → Bool) → Parts → Option Text → Db → Disk → RenderCount × ℕ × Disk
unfolding iter_all_pages render_pages
render_all works wiki_dir prefix db disk =
    let (n, disk') =
      render_pages works wiki_dir (iter_all_pages (rounds db) prefix batch_size none db)
        (record { rendered = 0; failed = 0 }) disk in
    (n, (if n.failed == 0 then 0 else 1), disk')
