-- ===== src/Master/Db/Events.antt =====
-- `append_log`, `events_since` and `recent_events` of src/vaultmcp/master/db.py.
pub mod Replay
use vaultmcp.Prelude.{ℕ, suc}
use vaultmcp.Prelude.{Bool, ◌&&◌, ◌||◌, none, List, [], ◌∷◌, ◌++◌}
use vaultmcp.Prelude.{ltb, leb}
use vaultmcp.Prelude.{◌==◌, nat_Eq, list_Eq, option_Eq}
use vaultmcp.Prelude.{take, select}
use vaultmcp.Prelude.{sort_by}
use vaultmcp.Prelude.{Text, codes}
use vaultmcp.Prelude.Ints.{pos}
use vaultmcp.Shared.Value.{Value, int, dict, field, end, text}
use vaultmcp.Master.Db.Rows.{Db, EventRow, LogRow, Operation, Outcome}
use vaultmcp.Master.Db.Audit.{insert_audit}
use vaultmcp.Master.Db.Pages.{insert_event}

-- The arguments of `append_log`.
pub record LogArgs : Type 0 where
  pub timestamp : ℕ
  pub server_id : Text
  pub app : Text
  pub modules_touched : List Text
  pub integrations_updated : List Text
  pub notable : List Text

abbrev pub log_row : ℕ → ℕ → LogArgs → LogRow
log_row id gv a = record {
  id = id;
  ts = a.timestamp;
  server_id = a.server_id;
  app = a.app;
  modules_touched = a.modules_touched;
  integrations_updated = a.integrations_updated;
  notable = a.notable;
  global_version = gv;
}

abbrev pub log_payload : ℕ → LogArgs → Value
log_payload id a = dict (
    field (text (codes "id")) (int (pos id)) (
      field (text (codes "server_id")) (text a.server_id)
        (field (text (codes "app")) (text a.app) end)))

unfoldable pub append_log : ℕ → LogArgs → Db → (ℕ × ℕ) × Db
unfolding insert_event insert_audit
append_log now a db =
    let gv = suc db.global_version_seq in
    let id = suc db.log_entries_id_seq in
    let db₁ = record db {
      global_version_seq = gv;
      log_entries = db.log_entries ++ log_row id gv a ∷ [];
      log_entries_id_seq = id;
    } in
    let db₂ = insert_event now (codes "LogAppended") none gv (log_payload id a) db₁ in
    (
      (id, gv),
      insert_audit now
          (record {
            operation = Operation.append_log;
            path = none;
            server_id = a.server_id;
            app = a.app;
            agent_model = none;
            prompt_hash = none;
            version_before = none;
            version_after = none;
            outcome = Outcome.succeeded;
            error_code = none;
            client_ip = none;
          })
          db₂,
    )

-- `ORDER BY global_version ASC`
unfoldable pub earlier : EventRow → EventRow → Bool
earlier a b = leb a.global_version b.global_version

abbrev pub newer_than : ℕ → EventRow → Bool
newer_than n e = ltb n e.global_version

-- The default of `limit`.
abbrev pub replay_limit : ℕ
replay_limit = 1000

unfoldable pub events_since : ℕ → ℕ → Db → List EventRow
unfolding earlier sort_by
events_since n limit db = take limit (sort_by earlier (select (newer_than n) db.events))

-- `ORDER BY ts DESC, id DESC`
unfoldable pub more_recent : EventRow → EventRow → Bool
more_recent a b = ltb b.ts a.ts || (a.ts == b.ts && leb b.id a.id)

unfoldable pub recent_events : ℕ → Db → List EventRow
unfolding more_recent sort_by
recent_events limit db = take limit (sort_by more_recent db.events)
