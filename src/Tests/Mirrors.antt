-- ===== src/Tests/Mirrors.antt =====
-- The agent's side at concrete events.
use vaultmcp.Prelude.{
  ◌≡◌, refl, none, some, [], ◌∷◌, codes, ok, ◌≤◌, list_Eq, nat_Eq, if◌then◌else◌, true,
}
use vaultmcp.Shared.FilePath.{Parts, resolve}
use vaultmcp.Prelude.{max, err, ok, Bool, true, false, ◌||◌, Result}
use vaultmcp.Agent.Sync.Mirrors.{failed_read_is_passed}
use vaultmcp.Prelude.{Text, Bool, Result, ◌||◌, ok, true, false}
use vaultmcp.Agent.Client.{ClientError, http_failure, validation_error, conflict_error}
use vaultmcp.Agent.Queue.{
  QueuedWrite, Queue, list_pending, Entry, Contents, unreadable, misshapen, written, sidelined,
}
use vaultmcp.Agent.Watcher.{Written, replay_queue}
use vaultmcp.Agent.Watcher.Kept.{is_kept}
use vaultmcp.Agent.Watcher.Replay.{
  or_none, is_accepted, replays, replay_loses_nothing, refusal_blocks_replay,
}
use vaultmcp.Agent.VersionCache.{new_cache, get_version, get_cursor}
use vaultmcp.Agent.Mirror.{Agent}
use vaultmcp.Agent.Sync.{Event, Page, Arrival, apply_events}
use vaultmcp.Agent.Sync.Mirrors.{cursor_monotone}

abbrev vault : Parts
vault = codes "vault" ∷ []

abbrev blank_agent : Agent
blank_agent = record {
  cache = new_cache;
  queue = record { pending = []; failed = [] };
  suppressed = [];
  files = [];
}

abbrev home_page : Page
home_page = record { content = codes "Hi"; version = 2; global_version = 7 }

abbrev home_event : Event
home_event = record {
  event_type = some (codes "PageChanged");
  path = some (codes "a.md");
  global_version = 7;
}

abbrev home_arrival : Arrival
home_arrival = record { now = 10; event = home_event; read = λ p. ok home_page; works = true }

abbrev home_file : Parts
home_file = resolve vault (codes "a.md")

cursor_monotone_example :
    get_cursor new_cache ≤ get_cursor (apply_events vault (home_arrival ∷ []) blank_agent).cache
cursor_monotone_example = cursor_monotone vault (home_arrival ∷ []) blank_agent

abbrev away_event : Event
away_event = record { event_type = some (codes "LogAppended"); path = none; global_version = 9 }

abbrev failed_arrival : Arrival
failed_arrival = record { now = 10; event = home_event; read = λ p. err http_failure; works = true }

abbrev away_arrival : Arrival
away_arrival = record { now = 11; event = away_event; read = λ p. err http_failure; works = true }

failed_read_is_passed_example :
    let b = apply_events vault (failed_arrival ∷ away_arrival ∷ []) blank_agent in
    (b.files ≡ [])
    × (get_version (codes "b.md") b.cache ≡ get_version (codes "b.md") new_cache)
    × (get_cursor b.cache ≡ max 9 (get_cursor new_cache))
failed_read_is_passed_example =
    failed_read_is_passed failed_arrival away_arrival vault blank_agent (codes "a.md")
      (codes "b.md") http_failure refl refl refl refl

abbrev queued : Text → QueuedWrite
queued id = record {
  id = id;
  timestamp = [];
  path = codes "a.md";
  content = codes "Hi";
  base_version = none;
  session = record {
    server_id = codes "s1";
    app = codes "app";
    agent_model = codes "m";
    session_id = [];
  };
}

abbrev two_writes : Queue
two_writes = record {
  pending =
      record { id = codes "1"; item = written (queued (codes "1")) }
      ∷ record { id = codes "2"; item = written (queued (codes "2")) }
      ∷ [];
  failed = [];
}

abbrev waiting_agent : Agent
waiting_agent = record blank_agent { queue = two_writes }

-- A master that accepts the first write it is sent and answers the next ones with a conflict.
abbrev master_once : QueuedWrite → Bool → Result ClientError Written × Bool
master_once w fresh =
    if fresh
    then (ok (record { version = 1; global_version = 1 }), false)
    else (err (conflict_error 1 (codes "Hi") (codes "s1")), false)

replay_loses_nothing_example :
    (is_accepted master_once true 5 vault
        (codes "2")
        (or_none (list_pending two_writes).0)
        true
        (record waiting_agent { queue = (list_pending two_writes).1 })
      || is_kept (codes "2") (replay_queue master_once true 5 vault true waiting_agent).1.1.queue)
    ≡ true
replay_loses_nothing_example =
    replay_loses_nothing master_once true 5 vault true waiting_agent (codes "2") refl

-- A master that refuses every content.
abbrev master_refuses : QueuedWrite → Bool → Result ClientError Written × Bool
master_refuses w m = (err validation_error, m)

two_are_listed :
    list_pending two_writes ≡ (some (queued (codes "1") ∷ queued (codes "2") ∷ []), two_writes)
unfolding list_pending
two_are_listed = refl

refusal_blocks_replay_example :
    replays master_refuses true 3 5 vault true waiting_agent ≡ (true, waiting_agent)
refusal_blocks_replay_example =
    refusal_blocks_replay master_refuses true 3 5 vault true waiting_agent (queued (codes "1"))
      (queued (codes "2") ∷ []) two_are_listed refl

abbrev file : Text → Contents → Entry
file id item = record { id = id; item = item }

abbrev misshapen_queue : Queue
misshapen_queue = record {
  pending =
      file (codes "1") unreadable
      ∷ file (codes "2") misshapen
      ∷ file (codes "3") unreadable
      ∷ file (codes "4") (written (queued (codes "4")))
      ∷ [];
  failed = [];
}

-- The loop leaves at the file of another shape: the corrupt file before it is set aside, the one
-- behind it is not.
misshapen_raises : list_pending misshapen_queue ≡ (
  none,
  record {
    pending =
        file (codes "2") misshapen
        ∷ file (codes "3") unreadable
        ∷ file (codes "4") (written (queued (codes "4")))
        ∷ [];
    failed = sidelined (codes "corrupt") (file (codes "1") unreadable) ∷ [];
  },
)
unfolding list_pending
misshapen_raises = refl
