-- ===== src/Agent/Watcher/Replay.antt =====
-- The replay of the queued writes loses none of them.
use vaultmcp.Prelude.{ℕ, zero, suc, Option, none, some}
use vaultmcp.Prelude.{if◌then◌else◌}
use vaultmcp.Prelude.{◌≡◌, refl, ap, ◌∙◌, inl, inr}
use vaultmcp.Prelude.{Bool, true, false, ◌&&◌, ◌||◌, List, [], ◌∷◌}
use vaultmcp.Prelude.{arith, Bool-cases}
use vaultmcp.Prelude.{◌==◌, nat_Eq, list_Eq, option_Eq}
use vaultmcp.Prelude.{Result, err}
use vaultmcp.Prelude.{Text}
use vaultmcp.Shared.FilePath.{Parts}
use vaultmcp.Agent.Client.{ClientError, validation_error}
use vaultmcp.Agent.Queue.{list_pending, QueuedWrite, Queue}
use vaultmcp.Agent.Mirror.{Agent}
use vaultmcp.Agent.Watcher.{Written, after_replay, replay_items, replay_queue}
use vaultmcp.Agent.Watcher.Kept.{is_kept, is_ok, kept-list_pending, kept-after_replay}

-- The writes that a replay goes through: none, if listing them raises.
abbrev pub or_none : Option (List QueuedWrite) → List QueuedWrite
or_none none = []
or_none (some items) = items

one_round :
    (x acc kept later : Bool)
    → (x || kept) ≡ true
    → (kept ≡ true → (acc || later) ≡ true)
    → ((x || (true && acc)) || later) ≡ true
one_round true acc kept later h ih = refl
one_round false acc kept later h ih = ih h

last_round : (x acc kept : Bool) → (x || kept) ≡ true → ((x || (false && acc)) || kept) ≡ true
last_round x acc kept h = ground (arith, h)

module _ {Master : Type 0}
    (write : QueuedWrite → Master → Result ClientError Written × Master) where
  -- The master accepts a write of this id among those that the replay sends.
  abbrev pub is_accepted : Bool → ℕ → Parts → Text → List QueuedWrite → Master → Agent → Bool
  is_accepted works now vault id [] m a = false
  is_accepted works now vault id (item ∷ items) m a =
      let (more, b) = after_replay works now vault item (write item m).0 a in
      let rest = is_accepted works now vault id items (write item m).1 b in
      (item.id == id && is_ok (write item m).0) || (more && rest)

module _ {Master : Type 0}
    (write : QueuedWrite → Master → Result ClientError Written × Master) where
  kept-replay_items :
      (works : Bool) (now : ℕ) (vault : Parts) (items : List QueuedWrite) (m : Master) (a : Agent)
      (id : Text)
      → is_kept id a.queue ≡ true
      → (is_accepted write works now vault id items m a
          || is_kept id (replay_items write works now vault items m a).1.queue)
        ≡ true
  unfolding replay_items
  kept-replay_items works now vault [] m a id h = h
  kept-replay_items works now vault (item ∷ items) m a id h =
      let r = (write item m).0 in
      let m' = (write item m).1 in
      let b = (after_replay works now vault item r a).1 in
      let this = kept-after_replay works now vault id item r a h in
      elim (Bool-cases (after_replay works now vault item r a).0) [
        | inl e ↦ rw e (
            one_round (item.id == id && is_ok r) (is_accepted write works now vault id items m' b)
              (is_kept id b.queue) _ this (kept-replay_items works now vault items m' b id))
        | inr e ↦ rw e (
            last_round (item.id == id && is_ok r) (is_accepted write works now vault id items m' b)
              (is_kept id b.queue) this)
      ]

  abbrev sent :
      Bool → ℕ → Parts → Master → Agent → Option (List QueuedWrite) → Bool × (Master × Agent)
  sent works now vault m a none = (false, (m, a))
  sent works now vault m a (some items) = (true, replay_items write works now vault items m a)

  kept-sent :
      (works : Bool) (now : ℕ) (vault : Parts) (m : Master) (a : Agent) (id : Text)
      (listed : Option (List QueuedWrite))
      → is_kept id a.queue ≡ true
      → (is_accepted write works now vault id (or_none listed) m a
          || is_kept id (sent works now vault m a listed).1.1.queue)
        ≡ true
  kept-sent works now vault m a id none h = h
  kept-sent works now vault m a id (some items) h = kept-replay_items works now vault items m a id h

  -- Whatever the master answers, and whether the vault takes writes or not, each write whose file is in
  -- one of the two directories before a replay is afterwards still pending, or set aside in the failed
  -- directory, or was accepted by the master in this replay.
  pub replay_loses_nothing :
      (works : Bool) (now : ℕ) (vault : Parts) (m : Master) (a : Agent) (id : Text)
      → is_kept id a.queue ≡ true
      → (is_accepted write works now vault id
            (or_none (list_pending a.queue).0)
            m
            (record a { queue = (list_pending a.queue).1 })
          || is_kept id (replay_queue write works now vault m a).1.1.queue)
        ≡ true
  unfolding replay_queue
  replay_loses_nothing works now vault m a id h =
      kept-sent works now vault m (record a { queue = (list_pending a.queue).1 }) id
        (list_pending a.queue).0 (kept-list_pending id a.queue h)

  stopped :
      (works : Bool) (now : ℕ) (vault : Parts) (m : Master) (a : Agent) (item : QueuedWrite)
      (items : List QueuedWrite)
      → write item m ≡ (err validation_error, m)
      → replay_items write works now vault (item ∷ items) m a ≡ (m, a)
  unfolding replay_items after_replay
  stopped works now vault m a item items refused = rw (refused, replay_items, after_replay) refl

  blocked :
      (works : Bool) (now : ℕ) (vault : Parts) (m : Master) (a : Agent) (item : QueuedWrite)
      (items : List QueuedWrite)
      → list_pending a.queue ≡ (some (item ∷ items), a.queue)
      → write item m ≡ (err validation_error, m)
      → replay_queue write works now vault m a ≡ (true, (m, a))
  unfolding replay_queue
  blocked works now vault m a item items listed refused =
      ap
        (λ (x : Option (List QueuedWrite) × Queue).
          sent works now vault m (record a { queue = x.1 }) x.0)
        listed
      ∙ ap (λ (x : Master × Agent). (true, x)) (stopped works now vault m a item items refused)

  -- `n` replays, one after the other, up to one that raises.
  abbrev pub replays : Bool → ℕ → ℕ → Parts → Master → Agent → Master × Agent
  replays works zero now vault m a = (m, a)
  replays works (suc n) now vault m a =
      let (returned, s) = replay_queue write works now vault m a in
      let later = replays works n now vault s.0 s.1 in if returned then later else s

  -- If every file in the queue reads back and the master refuses the first write for its content,
  -- with a 422, then any number of replays changes nothing: the first write stays, and so do the writes
  -- behind it, which are never sent.
  pub refusal_blocks_replay :
      (works : Bool) (n now : ℕ) (vault : Parts) (m : Master) (a : Agent) (item : QueuedWrite)
      (items : List QueuedWrite)
      → list_pending a.queue ≡ (some (item ∷ items), a.queue)
      → write item m ≡ (err validation_error, m)
      → replays works n now vault m a ≡ (m, a)
  refusal_blocks_replay works zero now vault m a item items listed refused = refl
  refusal_blocks_replay works (suc n) now vault m a item items listed refused =
      rw (blocked works now vault m a item items listed refused)
        (refusal_blocks_replay works n now vault m a item items listed refused)
