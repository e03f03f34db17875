-- ===== src/Master/Db/Rows.antt =====
-- src/vaultmcp/master/schema.sql and the row types of src/vaultmcp/master/db.py. A sequence is the
-- last number it gave out; a time is a number.
use vaultmcp.Prelude.{ℕ}
use vaultmcp.Prelude.{Option, List, []}
use vaultmcp.Prelude.{nat_Eq, list_Eq, option_Eq}
use vaultmcp.Prelude.{Text}
use vaultmcp.Shared.Value.{Value, Fields}

pub record PageRow : Type 0 where
  pub path : Text
  pub content : Text
  pub version : ℕ
  pub global_version : ℕ
  pub metadata : Fields
  pub page_type : Text
  pub owners : List Text
  pub updated : ℕ
  pub last_writer_server : Text
  pub last_writer_app : Text
  pub last_writer_session : Text

pub record EventRow : Type 0 where
  pub id : ℕ
  pub ts : ℕ
  pub event_type : Text
  pub path : Option Text
  pub global_version : ℕ
  pub payload : Value

pub data Operation : Type 0 where
  read write delete subscribe append_log search : Operation

pub data Outcome : Type 0 where
  succeeded conflict forbidden validation_failed : Outcome

pub record AuditRow : Type 0 where
  pub id : ℕ
  pub ts : ℕ
  pub operation : Operation
  pub path : Option Text
  pub server_id : Text
  pub app : Text
  pub agent_model : Option Text
  pub prompt_hash : Option Text
  pub version_before : Option ℕ
  pub version_after : Option ℕ
  pub outcome : Outcome
  pub error_code : Option Text
  pub client_ip : Option Text

pub record LogRow : Type 0 where
  pub id : ℕ
  pub ts : ℕ
  pub server_id : Text
  pub app : Text
  pub modules_touched : List Text
  pub integrations_updated : List Text
  pub notable : List Text
  pub global_version : ℕ

pub record JobRow : Type 0 where
  pub id : ℕ
  pub path : Text
  pub version : ℕ
  pub enqueued_at : ℕ
  pub attempts : ℕ
  pub last_error : Option Text

-- The vector itself is never looked into: it is the text that is cast to `vector`.
pub record EmbeddingRow : Type 0 where
  pub path : Text
  pub version : ℕ
  pub model : Text
  pub dim : ℕ
  pub embedding : Text
  pub computed_at : ℕ

pub record ServerRow : Type 0 where
  pub id : Text
  pub apps : List Text
  pub token_hash : Option Text
  pub rotated_at : Option ℕ

pub record ExtensionRow : Type 0 where
  pub name : Text
  pub schema_prefix : Text
  pub role_name : Text
  pub owners : List Text
  pub policy : Value
  pub schema_version : ℕ
  pub created_at : ℕ

pub record Db : Type 0 where
  pub pages : List PageRow
  pub events : List EventRow
  pub audit : List AuditRow
  pub log_entries : List LogRow
  pub embedding_jobs : List JobRow
  pub embeddings : List EmbeddingRow
  pub servers : List ServerRow
  pub extensions : List ExtensionRow
  pub roles : List Text
  pub tables : List Text
  pub global_version_seq : ℕ
  pub events_id_seq : ℕ
  pub audit_id_seq : ℕ
  pub log_entries_id_seq : ℕ
  pub embedding_jobs_id_seq : ℕ

-- The tables right after the schema is applied.
abbrev pub fresh : Db
fresh = record {
  pages = [];
  events = [];
  audit = [];
  log_entries = [];
  embedding_jobs = [];
  embeddings = [];
  servers = [];
  extensions = [];
  roles = [];
  tables = [];
  global_version_seq = 0;
  events_id_seq = 0;
  audit_id_seq = 0;
  log_entries_id_seq = 0;
  embedding_jobs_id_seq = 0;
}
