-- ===== src/Agent/Watcher/Flush.antt =====
-- `_on_change` and `_flush` of src/vaultmcp/agent/watcher.py: the debounce timers, and what is sent when
-- one runs out. A file that is there can be read.
use vaultmcp.Prelude.{ℕ, ◌+◌, Bool, not, Option, none, some, List, [], ◌∷◌, ◌++◌}
use vaultmcp.Prelude.{
  if◌then◌else◌, ◌==◌, nat_Eq, list_Eq, length, drop, select, join, Text, Result,
}
use vaultmcp.Shared.FilePath.{Parts, is_relative_to, read_text}
use vaultmcp.Agent.Client.{ClientError}
use vaultmcp.Agent.Queue.{Session}
use vaultmcp.Agent.Mirror.{Agent}
use vaultmcp.Agent.Watcher.{Moment, Written, on_change, send_or_queue}

-- `DEBOUNCE_SECONDS`, in microseconds.
abbrev pub debounce : ℕ
debounce = 500000

-- The dict `_pending`: when the timer of a path runs out.
abbrev pub Timers : Type 0
Timers = List (Parts × ℕ)

abbrev pub is_for : Parts → Parts × ℕ → Bool
is_for path (p, due) = p == path

-- `self._pending.pop(path, None)`
unfoldable pub pop : Parts → Timers → Timers
pop path timers = select (λ t. not (is_for path t)) timers

unfoldable pub schedule : ℕ → Parts → Timers → Timers
unfolding pop
schedule now path timers = pop path timers ++ (path, now + debounce) ∷ []

-- A file event: the timers and the agent after it.
unfoldable pub file_event : ℕ → Parts → Timers → Agent → Timers × Agent
unfolding on_change schedule
file_event now path timers a =
    let (go, b) = on_change now path a in (if go then schedule now path timers else timers, b)

-- `abs_path.relative_to(vault_dir).as_posix()`
abbrev pub relative_path : Parts → Parts → Text
relative_path vault_dir path = join b'/' (drop (length vault_dir) path)

unfoldable pub flush :
    Moment
    → Parts
    → Session
    → (Text → Text → Option ℕ → Result ClientError Written)
    → Parts
    → Timers
    → Agent
    → Timers × Agent
unfolding pop is_relative_to send_or_queue read_text
flush m vault_dir session write path timers a = elim (read_text path a.files) [
  | none ↦ (pop path timers, a)
  | some content ↦ if not (is_relative_to path vault_dir) then (pop path timers, a) else (
    pop path timers,
    send_or_queue m vault_dir session write (relative_path vault_dir path) content a,
  )
]
