-- ===== src/Agent/Client.antt =====
-- src/vaultmcp/agent/client.py: how an answer of the master becomes a value or an exception, and the
-- parser of the event stream. httpx is the answer that is given; `json.loads` is an argument.
pub mod Stream
use vaultmcp.Prelude.{ℕ}
use vaultmcp.Prelude.{Bool, true, false, ◌&&◌, Option, none, some, List, [], ◌∷◌, ◌++◌}
use vaultmcp.Prelude.{if◌then◌else◌}
use vaultmcp.Prelude.{◌==◌, nat_Eq, list_Eq, option_Eq}
use vaultmcp.Prelude.{drop}
use vaultmcp.Prelude.{Result, ok, err}
use vaultmcp.Prelude.{Text, codes, starts_with, strip, join}
use vaultmcp.Prelude.{splitlines}
use vaultmcp.Shared.Value.{Value, Fields, text, end, field, get}

pub data ClientError : Type 0 where
  conflict_error : ℕ → Text → Text → ClientError
  not_found_error : ClientError
  validation_error : ClientError
  http_failure : ClientError
  unexpected : ℕ → ClientError

-- The `detail` of a 409.
pub record ConflictDetail : Type 0 where
  pub current_version : ℕ
  pub current_content : Text
  pub last_writer : Text

-- What `self._client.post` gives: an `httpx.HTTPError`, or a status with the body that it has.
pub data Answer (A : Type 0) : Type 0 where
  no_answer : Answer A
  answer : ℕ → A → ConflictDetail → Answer A

unfoldable pub interpret : {A : Type 0} → Answer A → Result ClientError A
interpret no_answer = err http_failure
interpret (answer status body detail) =
    if status == 200
    then ok body
    else if status == 404
    then err not_found_error
    else if status == 422
    then err validation_error
    else if status == 409
    then err (conflict_error detail.current_version detail.current_content detail.last_writer)
    else err (unexpected status)

abbrev pub onto_first : ℕ → List Text × Text → List Text × Text
onto_first c ([], rest) = ([], c ∷ rest)
onto_first c (b ∷ bs, rest) = ((c ∷ b) ∷ bs, rest)

-- `while "\n\n" in buf: block, buf = buf.split("\n\n", 1)`: the blocks, and what stays in the buffer.
unfoldable pub drain : Text → List Text × Text
drain [] = ([], [])
drain (c ∷ []) = ([], c ∷ [])
drain (c ∷ d ∷ s) =
    let (bs, rest) = drain s in
    let after = drain (d ∷ s) in if c == 10 && d == 10 then ([] ∷ bs, rest) else onto_first c after

-- The event type, if a line names one, and the data lines of a block.
unfoldable pub block_fields : List Text → Option Text → List Text → Option Text × List Text
unfolding strip
block_fields [] event_type data_lines = (event_type, data_lines)
block_fields (line ∷ lines) event_type data_lines =
    let typed = block_fields lines (some (strip (drop 6 line))) data_lines in
    let with_data = block_fields lines event_type (data_lines ++ strip (drop 5 line) ∷ []) in
    let skipped = block_fields lines event_type data_lines in
    if starts_with line (codes "event:")
    then typed
    else if starts_with line (codes "data:")
    then with_data
    else skipped

abbrev is_some : Option Value → Bool
is_some none = false
is_some (some v) = true

abbrev snoc : Fields → Value → Value → Fields
snoc end k v = field k v end
snoc (field j w r) k v = field j w (snoc r k v)

abbrev pub with_event_type : Option Text → Fields → Fields
with_event_type none payload = payload
with_event_type (some []) payload = payload
with_event_type (some (c ∷ s)) payload =
    if is_some (get payload (codes "event_type"))
    then payload
    else snoc payload (text (codes "event_type")) (text (c ∷ s))

module _ (json_loads : Text → Option Fields) where
  -- The event of a block: none without data lines, or if the data is not JSON.
  abbrev pub block_event : Option Text × List Text → Option Fields
  block_event (event_type, []) = none
  block_event (event_type, d ∷ ds) = elim (json_loads (join 10 (d ∷ ds))) [
    | none ↦ none
    | some payload ↦ some (with_event_type event_type payload)
  ]

  unfoldable pub block_events : List Text → List Fields
  unfolding block_fields splitlines
  block_events [] = []
  block_events (b ∷ bs) = elim (block_event (block_fields (splitlines b) none [])) [
    | none ↦ block_events bs
    | some e ↦ e ∷ block_events bs
  ]

  -- The events of the chunks that arrive, with the buffer before them.
  unfoldable pub parse_sse : Text → List Text → List Fields
  unfolding drain block_events
  parse_sse buf [] = []
  parse_sse buf (chunk ∷ chunks) =
      let (blocks, rest) = drain (buf ++ chunk) in block_events blocks ++ parse_sse rest chunks
