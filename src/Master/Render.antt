-- ===== src/Master/Render.antt =====
-- src/vaultmcp/master/render.py. The argument `works` tells whether the file system carries the
-- operation out; if not it raises an `OSError` before any file is written.
use vaultmcp.Prelude.{◌≡◌}
use vaultmcp.Prelude.{Bool, true, not, none, some}
use vaultmcp.Prelude.{arith, if◌then◌else◌}
use vaultmcp.Prelude.{◌==◌, nat_Eq, list_Eq, option_Eq}
use vaultmcp.Prelude.{Text}
use vaultmcp.Shared.FilePath.{
  Parts, Disk, resolve, is_relative_to, replace_file, remove_file, temp_of, file_at,
  file_at-replace_file,
}

pub data Rendered : Type 0 where
  rendered : Disk → Rendered
  escapes : Rendered
  os_error : Rendered

unfoldable pub render_to_disk : Bool → Parts → Text → Text → Disk → Rendered
unfolding resolve is_relative_to replace_file
render_to_disk works wiki_dir path content disk =
    let target = resolve wiki_dir path in
    if not (is_relative_to target wiki_dir)
    then escapes
    else if works
    then rendered (replace_file target content disk)
    else os_error

unfoldable pub remove_from_disk : Bool → Parts → Text → Disk → Rendered
unfolding resolve is_relative_to remove_file
remove_from_disk works wiki_dir path disk =
    let target = resolve wiki_dir path in
    if not (is_relative_to target wiki_dir)
    then escapes
    else if works
    then rendered (remove_file target disk)
    else os_error

-- A page file is written only below the wiki directory. Under the page's resolved path it then holds the
-- page's content, the sibling whose name has `.tmp` behind it is gone, and any other file stays as it is.
pub render_stays_inside :
    (works : Bool) (wiki_dir : Parts) (path content : Text) (disk disk' : Disk) (q : Parts)
    → render_to_disk works wiki_dir path content disk ≡ rendered disk'
    → (is_relative_to (resolve wiki_dir path) wiki_dir ≡ true)
      × (file_at q disk' ≡ (
          if resolve wiki_dir path == q
          then some content
          else if temp_of (resolve wiki_dir path) == q
          then none
          else file_at q disk))
unfolding render_to_disk
render_stays_inside works wiki_dir path content disk disk' q h =
    ground (arith, file_at-replace_file (resolve wiki_dir path) q content disk)
