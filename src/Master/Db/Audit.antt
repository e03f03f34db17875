-- ===== src/Master/Db/Audit.antt =====
-- `_insert_audit` and `list_audit` of src/vaultmcp/master/db.py.
use vaultmcp.Prelude.{ℕ, suc}
use vaultmcp.Prelude.{Bool, true, false, ◌&&◌, ◌||◌, Option, none, some, List, [], ◌∷◌, ◌++◌}
use vaultmcp.Prelude.{ltb, leb}
use vaultmcp.Prelude.{◌==◌, nat_Eq, list_Eq, option_Eq}
use vaultmcp.Prelude.{take, select}
use vaultmcp.Prelude.{sort_by}
use vaultmcp.Prelude.{Text}
use vaultmcp.Master.Db.Rows.{Db, AuditRow, Operation, Outcome}

-- The arguments of `_insert_audit`.
pub record AuditArgs : Type 0 where
  pub operation : Operation
  pub path : Option Text
  pub server_id : Text
  pub app : Text
  pub agent_model : Option Text
  pub prompt_hash : Option Text
  pub version_before : Option ℕ
  pub version_after : Option ℕ
  pub outcome : Outcome
  pub error_code : Option Text
  pub client_ip : Option Text

abbrev pub audit_row : ℕ → ℕ → AuditArgs → AuditRow
audit_row id now a = record {
  id = id;
  ts = now;
  operation = a.operation;
  path = a.path;
  server_id = a.server_id;
  app = a.app;
  agent_model = a.agent_model;
  prompt_hash = a.prompt_hash;
  version_before = a.version_before;
  version_after = a.version_after;
  outcome = a.outcome;
  error_code = a.error_code;
  client_ip = a.client_ip;
}

unfoldable pub insert_audit : ℕ → AuditArgs → Db → Db
insert_audit now a db =
    let id = suc db.audit_id_seq in
    record db { audit = db.audit ++ audit_row id now a ∷ []; audit_id_seq = id }

abbrev pub operation_eq : Operation → Operation → Bool
operation_eq Operation.read Operation.read = true
operation_eq Operation.write Operation.write = true
operation_eq Operation.delete Operation.delete = true
operation_eq Operation.subscribe Operation.subscribe = true
operation_eq Operation.append_log Operation.append_log = true
operation_eq Operation.search Operation.search = true
operation_eq _ _ = false

-- The filters of `list_audit`; a filter that is `none` asks for nothing.
pub record AuditFilter : Type 0 where
  pub path : Option Text
  pub since : Option ℕ
  pub server_id : Option Text
  pub app : Option Text
  pub operation : Option Operation
  pub limit : ℕ

abbrev pub asked {ℓ} : {A : Type ℓ} → Option A → (A → Bool) → Bool
asked none test = true
asked (some a) test = test a

-- The `WHERE` of `list_audit`. A row whose path is NULL equals no path.
unfoldable pub audit_matches : AuditFilter → AuditRow → Bool
audit_matches f r =
    asked f.path (λ p. r.path == some p)
    && asked f.since (λ t. leb t r.ts)
    && asked f.server_id (λ s. r.server_id == s)
    && asked f.app (λ a. r.app == a)
    && asked f.operation (λ o. operation_eq r.operation o)

-- `ORDER BY ts DESC, id DESC`
unfoldable pub newer : AuditRow → AuditRow → Bool
newer a b = ltb b.ts a.ts || (a.ts == b.ts && leb b.id a.id)

unfoldable pub list_audit : AuditFilter → Db → List AuditRow
unfolding audit_matches newer sort_by
list_audit f db = take f.limit (sort_by newer (select (audit_matches f) db.audit))
