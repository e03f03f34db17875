-- ===== src/Master/Sse.antt =====
-- src/vaultmcp/master/sse.py: the fan-out of notifications to the subscribers' queues, and the catch-up.
-- One call is one step: the event loop runs a callback to its next `await`.
pub mod Queues
use vaultmcp.Prelude.{ℕ}
use vaultmcp.Prelude.{Bool, true, not, Option, none, some, List, [], ◌∷◌, ◌++◌}
use vaultmcp.Prelude.{map, ltb, if◌then◌else◌}
use vaultmcp.Prelude.{◌==◌, nat_Eq, list_Eq, option_Eq}
use vaultmcp.Prelude.{length, select}
use vaultmcp.Prelude.{Text, codes, starts_with}
use vaultmcp.Shared.Value.{Value, Fields, text, get}
use vaultmcp.Master.Db.Rows.{Db, EventRow}
use vaultmcp.Master.Db.Events.{events_since, replay_limit}

-- A NOTIFY payload: the trigger of schema.sql sends these four columns.
pub record Notice : Type 0 where
  pub id : ℕ
  pub event_type : Text
  pub path : Option Text
  pub global_version : ℕ

abbrev pub notice : EventRow → Notice
notice e = record {
  id = e.id;
  event_type = e.event_type;
  path = e.path;
  global_version = e.global_version;
}

pub data Message : Type 0 where
  event : Notice → Message
  heartbeat : Message
  shutdown : Message

-- `_Subscriber`, under the number by which its identity is told.
pub record Subscriber : Type 0 where
  pub number : ℕ
  pub queue : List Message
  pub prefix : Option Text

-- `asyncio.Queue(maxsize=256)`
abbrev pub max_queue : ℕ
max_queue = 256

unfoldable pub put_nowait : Message → Subscriber → Subscriber
put_nowait m s =
    if ltb (length s.queue) max_queue then record s { queue = s.queue ++ m ∷ [] } else s

abbrev path_text : Option Text → Text
path_text none = []
path_text (some p) = p

-- `not (prefix and not path.startswith(prefix))`: an empty prefix asks for nothing.
unfoldable pub wants : Option Text → Option Text → Bool
wants none path = true
wants (some []) path = true
wants (some (c ∷ p)) path = starts_with (path_text path) (c ∷ p)

unfoldable pub deliver : Notice → Subscriber → Subscriber
unfolding put_nowait wants
deliver n s = if wants s.prefix n.path then put_nowait (event n) s else s

unfoldable pub fanout : Notice → List Subscriber → List Subscriber
unfolding deliver
fanout n subs = map (deliver n) subs

unfoldable pub heartbeat_tick : List Subscriber → List Subscriber
unfolding put_nowait
heartbeat_tick subs = map (put_nowait heartbeat) subs

-- The last part of `stop`.
unfoldable pub stop : List Subscriber → List Subscriber
unfolding put_nowait
stop subs = map (put_nowait shutdown) subs

-- The catch-up phase of `subscribe`: each event goes out with its payload as `data`.
unfoldable pub catch_up : Option ℕ → Option Text → Db → List (Notice × Value)
unfolding wants events_since
catch_up none prefix db = []
catch_up (some n) prefix db =
    map (λ e. (notice e, e.payload))
      (select (λ (e : EventRow). wants prefix e.path) (events_since n replay_limit db))

unfoldable pub register : ℕ → Option Text → List Subscriber → List Subscriber
register number prefix subs = subs ++ record { number = number; queue = []; prefix = prefix } ∷ []

unfoldable pub unregister : ℕ → List Subscriber → List Subscriber
unregister number subs = select (λ s. not (s.number == number)) subs

-- What one round of the loop of `subscribe` does with its queue.
pub data Round : Type 0 where
  yielded : Message → Round
  waits : Round
  returned : Round

unfoldable pub next_round : Bool → Subscriber → Round × Subscriber
next_round stopping s = elim s.queue [
  | [] ↦ (if stopping then returned else waits, s)
  | shutdown ∷ q ↦ (returned, record s { queue = q })
  | m ∷ q ↦ (yielded m, record s { queue = q })
]

-- `format_sse`: a frame of the stream. `json.dumps` is an argument, and so is `str` of an event type
-- that is no text.
unfoldable pub event_name : (Value → Text) → Option Value → Text
event_name str none = codes "message"
event_name str (some (text t)) = t
event_name str (some v) = str v

unfoldable pub format_sse : (Fields → Text) → (Value → Text) → Fields → Text
unfolding event_name
format_sse dumps str payload =
    codes "event: "
    ++ event_name str (get payload (codes "event_type"))
    ++ 10 ∷ (codes "data: " ++ dumps payload ++ 10 ∷ 10 ∷ [])
