-- ===== src/Agent/Mirror.antt =====
-- The state of the agent, and the write of a page into the local mirror: `_write_to_mirror` of
-- src/vaultmcp/agent/sync.py and `_replace_local` of src/vaultmcp/agent/watcher.py, which have one body.
use vaultmcp.Prelude.{ℕ}
use vaultmcp.Prelude.{Bool, true, false, not, ◌&&◌, ◌||◌, Option, none, some}
use vaultmcp.Prelude.{if◌then◌else◌}
use vaultmcp.Prelude.{◌==◌, nat_Eq, list_Eq, option_Eq}
use vaultmcp.Prelude.{Text}
use vaultmcp.Shared.FilePath.{Parts, Disk, resolve, is_relative_to, read_text, replace_file}
use vaultmcp.Agent.Suppressor.{Suppressed, mark}
use vaultmcp.Agent.VersionCache.{Cache}
use vaultmcp.Agent.Queue.{Queue}

pub record Agent : Type 0 where
  pub cache : Cache
  pub queue : Queue
  pub suppressed : Suppressed
  pub files : Disk

-- `target.exists() and target.read_text() == content`
abbrev pub holds : Option Text → Text → Bool
holds none content = false
holds (some t) content = t == content

-- A target outside the vault is refused, and a file that holds the content already is left alone.
unfoldable pub is_due : Parts → Parts → Text → Agent → Bool
unfolding is_relative_to read_text
is_due vault_dir target content a =
    is_relative_to target vault_dir && not (holds (read_text target a.files) content)

-- The path is marked before it is written.
unfoldable pub write_at : ℕ → Parts → Parts → Text → Agent → Agent
unfolding is_due mark replace_file
write_at now vault_dir target content a =
    if is_due vault_dir target content a
    then record a {
      suppressed = mark now target a.suppressed;
      files = replace_file target content a.files;
    }
    else a

-- `works` says that the vault takes the write; otherwise the `OSError` leaves the path marked and the
-- files as they are, and the first component is `false`.
unfoldable pub write_to_mirror : Bool → ℕ → Parts → Text → Text → Agent → Bool × Agent
unfolding write_at is_due mark
write_to_mirror works now vault_dir path content a =
    let target = resolve vault_dir path in
    if works || not (is_due vault_dir target content a)
    then (true, write_at now vault_dir target content a)
    else (false, record a { suppressed = mark now target a.suppressed })

unfoldable pub replace_local : Bool → ℕ → Parts → Text → Text → Agent → Bool × Agent
unfolding write_at is_due mark
replace_local works now vault_dir path content a =
    let target = resolve vault_dir path in
    if works || not (is_due vault_dir target content a)
    then (true, write_at now vault_dir target content a)
    else (false, record a { suppressed = mark now target a.suppressed })
