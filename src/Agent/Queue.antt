-- ===== src/Agent/Queue.antt =====
-- src/vaultmcp/agent/queue.py: the directory of pending writes and its `failed` directory. A file holds
-- the write that was saved, or something else.
use vaultmcp.Prelude.{ℕ}
use vaultmcp.Prelude.{Bool, true, false, not, Option, none, some, List, [], ◌∷◌, ◌++◌}
use vaultmcp.Prelude.{map}
use vaultmcp.Prelude.{◌==◌, nat_Eq, list_Eq, option_Eq}
use vaultmcp.Prelude.{length, select, any, ◌&&◌}
use vaultmcp.Prelude.{sort_by}
use vaultmcp.Prelude.{Text, codes, text_le}

-- The `session` of a write.
pub record Session : Type 0 where
  pub server_id : Text
  pub app : Text
  pub agent_model : Text
  pub session_id : Text

pub record QueuedWrite : Type 0 where
  pub id : Text
  pub timestamp : Text
  pub path : Text
  pub content : Text
  pub base_version : Option ℕ
  pub session : Session

-- What `from_json` makes of a file: a `ValueError` (or the `OSError` of reading it), the `TypeError` of
-- `cls(**data)` on JSON of another shape, or the write.
pub data Contents : Type 0 where
  unreadable : Contents
  misshapen : Contents
  written : QueuedWrite → Contents

-- A file under its id, the name without `.json`.
pub record Entry : Type 0 where
  pub id : Text
  pub item : Contents

pub record Sidelined : Type 0 where
  pub id : Text
  pub reason : Text
  pub item : Contents

pub record Queue : Type 0 where
  pub pending : List Entry
  pub failed : List Sidelined

unfoldable pub by_name : Entry → Entry → Bool
by_name a b = text_le a.id b.id

abbrev pub has_id : Text → Entry → Bool
has_id id e = e.id == id

-- The id is the time stamp with eight random digits; the caller draws it.
unfoldable pub enqueue :
    Text → Text → Text → Text → Option ℕ → Session → Queue → QueuedWrite × Queue
enqueue id timestamp path content base_version session q =
    let item : QueuedWrite = record {
      id = id;
      timestamp = timestamp;
      path = path;
      content = content;
      base_version = base_version;
      session = session;
    } in
    (item, record q { pending = q.pending ++ record { id = id; item = written item } ∷ [] })

-- The loop over the files in the order of their names, which the first `TypeError` leaves.
unfoldable pub readable : List Entry → Option (List QueuedWrite)
readable [] = some []
readable (e ∷ es) =
    let rest = readable es in
    elim e.item [
      | unreadable ↦ rest
      | misshapen ↦ none
      | written i ↦ elim rest [ none ↦ none | some is ↦ some (i ∷ is) ]
    ]

abbrev pub is_corrupt : Entry → Bool
is_corrupt e = elim e.item [ unreadable ↦ true | misshapen ↦ false | written i ↦ false ]

abbrev pub is_misshapen : Entry → Bool
is_misshapen e = elim e.item [ unreadable ↦ false | misshapen ↦ true | written i ↦ false ]

-- A file that the loop sets aside: it is corrupt, and no file that raises has a smaller name.
unfoldable pub is_set_aside : List Entry → Entry → Bool
unfolding by_name
is_set_aside files e = is_corrupt e && not (any (λ f. is_misshapen f && by_name f e) files)

abbrev pub sidelined : Text → Entry → Sidelined
sidelined reason e = record { id = e.id; reason = reason; item = e.item }

-- The pending writes in the order of their names, or `none` for a `TypeError`; corrupt files are set
-- aside.
unfoldable pub list_pending : Queue → Option (List QueuedWrite) × Queue
unfolding readable by_name sort_by is_set_aside
list_pending q =
    let files = sort_by by_name q.pending in
    (
      readable files,
      record {
        pending = select (λ e. not (is_set_aside q.pending e)) q.pending;
        failed =
            q.failed ++ map (sidelined (codes "corrupt")) (select (is_set_aside q.pending) files);
      },
    )

unfoldable pub remove : QueuedWrite → Queue → Queue
remove item q = record q { pending = select (λ e. not (has_id item.id e)) q.pending }

unfoldable pub mark_failed : QueuedWrite → Text → Queue → Queue
mark_failed item reason q = record {
  pending = select (λ e. not (has_id item.id e)) q.pending;
  failed = q.failed ++ map (sidelined reason) (select (has_id item.id) q.pending);
}

unfoldable pub depth : Queue → ℕ
depth q = length q.pending
