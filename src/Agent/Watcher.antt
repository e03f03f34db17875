-- ===== src/Agent/Watcher.antt =====
-- src/vaultmcp/agent/watcher.py: which file events count, `_send_or_queue` and `_replay_queue`. The
-- answers of the master, the time and the ids that are drawn are arguments.
pub mod Kept
pub mod Flush
pub mod Replay
use vaultmcp.Prelude.{ℕ}
use vaultmcp.Prelude.{Bool, true, false, not, ◌&&◌, Option, none, some, List, [], ◌∷◌}
use vaultmcp.Prelude.{reverse, ltb, if◌then◌else◌}
use vaultmcp.Prelude.{nat_Eq, list_Eq, option_Eq}
use vaultmcp.Prelude.{length, last?, any}
use vaultmcp.Prelude.{Result, ok, err}
use vaultmcp.Prelude.{Text, codes, starts_with}
use vaultmcp.Shared.FilePath.{Parts}
use vaultmcp.Agent.Client.{ClientError, conflict_error}
use vaultmcp.Agent.Suppressor.{is_suppressed}
use vaultmcp.Agent.VersionCache.{get_version, set_version}
use vaultmcp.Agent.Queue.{Session, QueuedWrite, enqueue, list_pending, remove, mark_failed}
use vaultmcp.Agent.Mirror.{Agent, replace_local}

-- `path.suffix == ".md"`: the last part ends in `.md` and has something before it.
unfoldable pub is_markdown : Option Text → Bool
is_markdown none = false
is_markdown (some name) = starts_with (reverse name) (codes "dm.") && ltb 3 (length name)

abbrev is_hidden : Text → Bool
is_hidden part = starts_with part (codes ".")

-- `_on_change`: whether a flush is scheduled, and the suppressor after the question.
unfoldable pub on_change : ℕ → Parts → Agent → Bool × Agent
unfolding is_markdown is_suppressed
on_change now path a =
    if not (is_markdown (last? path))
    then (false, a)
    else if any is_hidden path
    then (false, a)
    else let (skip, table) = is_suppressed now path a.suppressed in
      (not skip, record a { suppressed = table })

-- The answer of `wiki.write`.
pub record Written : Type 0 where
  pub version : ℕ
  pub global_version : ℕ

-- The moment of a call: the time, the id and time stamp that a queued write would get, and whether the
-- vault takes a write.
pub record Moment : Type 0 where
  pub now : ℕ
  pub id : Text
  pub timestamp : Text
  pub works : Bool

unfoldable pub push_to_queue : Moment → Text → Text → Option ℕ → Session → Agent → Agent
unfolding enqueue
push_to_queue m path content base session a = record a {
  queue = (enqueue m.id m.timestamp path content base session a.queue).1;
}

unfoldable pub after_send :
    Moment → Parts → Session → Text → Text → Option ℕ → Result ClientError Written → Agent → Agent
unfolding set_version replace_local push_to_queue
after_send m vault_dir session path content base (ok r) a = record a {
  cache = set_version path r.version r.global_version a.cache;
}
after_send m vault_dir session path content base (err (conflict_error version text writer)) a =
    let (done, b) = replace_local m.works m.now vault_dir path text a in
    if done then record b { cache = set_version path version 0 b.cache } else b
after_send m vault_dir session path content base (err e) a =
    push_to_queue m path content base session a

-- The write goes out with the cached version as its base; the master's answer depends on it.
unfoldable pub send_or_queue :
    Moment
    → Parts
    → Session
    → (Text → Text → Option ℕ → Result ClientError Written)
    → Text
    → Text
    → Agent
    → Agent
unfolding get_version after_send
send_or_queue m vault_dir session write path content a =
    let base = get_version path a.cache in
    after_send m vault_dir session path content base (write path content base) a

-- One round of the replay: the agent after it, and whether the replay goes on, which an `OSError` of
-- the vault ends too.
unfoldable pub after_replay :
    Bool → ℕ → Parts → QueuedWrite → Result ClientError Written → Agent → Bool × Agent
unfolding set_version remove replace_local mark_failed
after_replay works now vault_dir item (ok r) a = (
  true,
  record a {
    cache = set_version item.path r.version r.global_version a.cache;
    queue = remove item a.queue;
  },
)
after_replay works now vault_dir item (err (conflict_error version text writer)) a =
    let (done, b) = replace_local works now vault_dir item.path text a in
    if done
    then (true, record b { queue = mark_failed item (codes "conflict") b.queue })
    else (false, b)
after_replay works now vault_dir item (err e) a = (false, a)

-- The loop over the items, while the vault takes writes or while it takes none; the state of the master changes from one write to the next.
module _ {Master : Type 0}
    (write : QueuedWrite → Master → Result ClientError Written × Master) where
  unfoldable pub replay_items :
      Bool → ℕ → Parts → List QueuedWrite → Master → Agent → Master × Agent
  unfolding after_replay
  replay_items works now vault_dir [] m a = (m, a)
  replay_items works now vault_dir (item ∷ items) m a =
      let (result, m') = write item m in
      let (more, b) = after_replay works now vault_dir item result a in
      let rest = replay_items works now vault_dir items m' b in if more then rest else (m', b)

  -- The first component is `false` when `list_pending` raises.
  unfoldable pub replay_queue : Bool → ℕ → Parts → Master → Agent → Bool × (Master × Agent)
  unfolding list_pending replay_items
  replay_queue works now vault_dir m a =
      let (listed, queue) = list_pending a.queue in
      let b = record a { queue = queue } in
      elim listed [
        | none ↦ (false, (m, b))
        | some items ↦ (true, replay_items works now vault_dir items m b)
      ]
