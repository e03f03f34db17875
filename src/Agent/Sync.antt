-- ===== src/Agent/Sync.antt =====
-- src/vaultmcp/agent/sync.py: `_apply_event`, and the stream of events that `run` applies.
pub mod Mirrors
use vaultmcp.Prelude.{ℕ, ◌*◌, min}
use vaultmcp.Prelude.{Bool, true, false, Option, none, some, List, [], ◌∷◌}
use vaultmcp.Prelude.{ltb, if◌then◌else◌}
use vaultmcp.Prelude.{◌==◌, nat_Eq, list_Eq, option_Eq}
use vaultmcp.Prelude.{Result, ok, err}
use vaultmcp.Prelude.{Text, codes}
use vaultmcp.Shared.FilePath.{Parts}
use vaultmcp.Agent.Client.{ClientError}
use vaultmcp.Agent.VersionCache.{get_cursor, set_cursor, set_version}
use vaultmcp.Agent.Mirror.{Agent, write_to_mirror}

-- The fields of an event that the agent reads. A missing `global_version` is 0.
pub record Event : Type 0 where
  pub event_type : Option Text
  pub path : Option Text
  pub global_version : ℕ

-- The answer of `wiki.read`.
pub record Page : Type 0 where
  pub content : Text
  pub version : ℕ
  pub global_version : ℕ

unfoldable pub advance_cursor : ℕ → Agent → Agent
unfolding get_cursor set_cursor
advance_cursor gv a =
    if ltb (get_cursor a.cache) gv then record a { cache = set_cursor gv a.cache } else a

-- The first component is `false` when the write into the vault raises.
unfoldable pub apply_page : Bool → ℕ → Parts → Text → Page → Agent → Bool × Agent
unfolding write_to_mirror set_version
apply_page works now vault_dir path page a =
    let (done, b) = write_to_mirror works now vault_dir path page.content a in
    if done
    then (true, record b { cache = set_version path page.version page.global_version b.cache })
    else (false, b)

-- A page that cannot be fetched or written ends the handling: the cursor stays.
abbrev pub fetched : Bool → ℕ → Parts → Text → ℕ → Result ClientError Page → Agent → Agent
fetched works now vault_dir path gv (err e) a = a
fetched works now vault_dir path gv (ok page) a =
    let (done, b) = apply_page works now vault_dir path page a in
    if done then advance_cursor gv b else b

-- An event of which the path is missing or empty is dropped.
abbrev pub page_changed :
    Bool → ℕ → Parts → Option Text → ℕ → (Text → Result ClientError Page) → Agent → Agent
page_changed works now vault_dir none gv read a = a
page_changed works now vault_dir (some []) gv read a = a
page_changed works now vault_dir (some (c ∷ s)) gv read a =
    fetched works now vault_dir (c ∷ s) gv (read (c ∷ s)) a

-- The other events only move the cursor.
unfoldable pub apply_event :
    Bool → ℕ → Parts → (Text → Result ClientError Page) → Event → Agent → Agent
unfolding advance_cursor apply_page
apply_event works now vault_dir read e a =
    if e.event_type == some (codes "PageChanged")
    then page_changed works now vault_dir e.path e.global_version read a
    else advance_cursor e.global_version a

-- The events that `run` is sent, over one connection or several: an `OSError` drops the connection and
-- the events behind it are those of the next. Each comes with the time, with what the master answers
-- then, and with whether the vault takes a write then.
pub record Arrival : Type 0 where
  pub now : ℕ
  pub event : Event
  pub read : Text → Result ClientError Page
  pub works : Bool

unfoldable pub apply_events : Parts → List Arrival → Agent → Agent
unfolding apply_event
apply_events vault_dir [] a = a
apply_events vault_dir (x ∷ xs) a =
    apply_events vault_dir xs (apply_event x.works x.now vault_dir x.read x.event a)

-- `backoff = min(backoff * 2, self.backoff_max)`
unfoldable pub next_backoff : ℕ → ℕ → ℕ
next_backoff backoff_max backoff = min (backoff * 2) backoff_max
