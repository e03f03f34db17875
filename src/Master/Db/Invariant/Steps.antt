-- ===== src/Master/Db/Invariant/Steps.antt =====
-- Every history of the database operations, in any order, keeps the tables consistent.
use vaultmcp.Master.ExtSql.{Sql, ext_exec_as_role}
use vaultmcp.Prelude.{any, ◌&&◌, codes, ◌++◌, Bool-cases, inl, inr}
use vaultmcp.Master.Db.Extensions.{
  drop_role, drop_tables, drop_pages, takes_extensions, extension_key,
}
use vaultmcp.Master.Db.Tables.{remove}
use vaultmcp.Prelude.{ℕ, suc, ◌+◌, ◌≤◌}
use vaultmcp.Prelude.{◌≡◌, refl, inl, inr}
use vaultmcp.Prelude.{Bool, true, false, not, Option, none, some, List, [], ◌∷◌, ◌++◌}
use vaultmcp.Prelude.{arith, Bool-cases, Option-cases}
use vaultmcp.Prelude.{◌==◌, nat_Eq, list_Eq, option_Eq}
use vaultmcp.Prelude.{select}
use vaultmcp.Prelude.{Text, codes}
use vaultmcp.Shared.Value.{Value}
use vaultmcp.Master.Db.Rows.{Db, PageRow, EmbeddingRow, ExtensionRow, fresh}
use vaultmcp.Master.Db.Audit.{AuditArgs, insert_audit}
use vaultmcp.Master.Db.Pages.{
  PageWrite, page_row, write_page, write_found, commit_page, get_page, put_page, insert_event,
  version_payload, page_key,
}
use vaultmcp.Master.Db.Tables.{upsert}
use vaultmcp.Master.Db.Events.{LogArgs, append_log, log_row, log_payload}
use vaultmcp.Master.Db.Jobs.{pop_pending_embedding_job, complete_embedding_job, fail_embedding_job}
use vaultmcp.Master.Db.Servers.{add_server, update_server_token, remove_server}
use vaultmcp.Master.Db.Extensions.{
  ext_register, ext_deregister, deregister_found, ext_create_table, ext_emit_event,
  ext_enqueue_embedding, ext_page, next_version, ext_get, namespace_pattern,
}
use vaultmcp.Master.Db.Like.{like}
use vaultmcp.Master.Db.Invariant.{
  IsConsistent, upsert-IsConsistent, event-IsConsistent, drop_rows-IsConsistent, same-IsConsistent,
  SamePages, IsConsistent-fresh, sequence-IsConsistent,
}

-- One call of the database layer, with the time that Postgres reads and the outcomes that the role
-- system decides. The SQL of an extension may change all that its role is granted; the step is one that
-- leaves the pages, the events and the global version alone.
pub data Step (db : Db) : Db → Type 0 where
  write_page_step : (now : ℕ) (a : PageWrite) → Step db (write_page now a db).1
  append_log_step : (now : ℕ) (a : LogArgs) → Step db (append_log now a db).1
  pop_step : (max_attempts : ℕ) → Step db (pop_pending_embedding_job max_attempts db).1
  complete_step :
      (now id : ℕ) (e : EmbeddingRow) (d : Db)
      → complete_embedding_job now id e db ≡ some d
      → Step db d
  fail_step : (id : ℕ) (error : Text) → Step db (fail_embedding_job id error db)
  add_server_step :
      (now : ℕ) (id : Text) (apps : List Text) (hash : Text)
      → Step db (add_server now id apps hash db).1
  rotate_step : (now : ℕ) (id hash : Text) → Step db (update_server_token now id hash db).1
  remove_server_step : (id : Text) → Step db (remove_server id db).1
  register_step :
      (now : ℕ) (name prefix role : Text) (owners : List Text) (policy : Value)
      → Step db (ext_register now name prefix role owners policy db).1
  deregister_step :
      (drops : Bool) (name prefix role : Text)
      → Step db (ext_deregister drops name prefix role db).1
  create_table_step : (name : Text) → Step db (ext_create_table name db)
  emit_step :
      (now : ℕ) (permitted : Bool) (kind : Text) (path : Option Text) (payload : Value)
      → Step db (ext_emit_event now permitted kind path payload db).1
  ext_exec_step :
      (pg : Sql) (sql : Text) (params : List Value) (role : Text)
      → SamePages db (ext_exec_as_role pg sql params role db).1
      → Step db (ext_exec_as_role pg sql params role db).1
  embed_step :
      (now : ℕ) (path content : Text) → Step db (ext_enqueue_embedding now path content db).1

pub data Reach : Db → Type 0 where
  start : Reach fresh
  next : {d e : Db} → Reach d → Step d e → Reach e

commit-IsConsistent :
    (now : ℕ) (a : PageWrite) (before : Option ℕ) (version : ℕ) (db : Db)
    → IsConsistent db
    → 1 ≤ version
    → IsConsistent (commit_page now a before version db).1
unfolding commit_page
commit-IsConsistent now a before version db c v =
    let gv = suc db.global_version_seq in
    let db₁ = put_page a version db in
    let db₂ =
      insert_event now (codes "PageChanged") (some a.path) gv (version_payload version) db₁ in
    let c₁ : IsConsistent db₁ = upsert-IsConsistent db (page_row a version gv) c v refl in
    let c₂ : IsConsistent db₂ =
      event-IsConsistent now (codes "PageChanged") (some a.path) gv (version_payload version) db₁
        db.global_version_seq c₁ c.log_bound (omega arith) (omega arith) in
    same-IsConsistent db₂ (commit_page now a before version db).1
      (record { pages = refl; events = refl; sequence = refl }) c₂

-- An audit row more.
audit-IsConsistent :
    (now : ℕ) (row : AuditArgs) (db : Db) → IsConsistent db → IsConsistent (insert_audit now row db)
unfolding insert_audit
audit-IsConsistent now row db c =
    same-IsConsistent db (insert_audit now row db)
      (record { pages = refl; events = refl; sequence = refl }) c

write_found-IsConsistent :
    (now : ℕ) (a : PageWrite) (o : Option PageRow) (db : Db)
    → IsConsistent db
    → IsConsistent (write_found now a o db).1
unfolding write_found
write_found-IsConsistent now a none db c = elim (Option-cases a.base_version) [
  | inl e ↦ rw e (commit-IsConsistent now a none 1 db c (omega arith))
  | inr (v, e) ↦ rw e (audit-IsConsistent now _ db c)
]
write_found-IsConsistent now a (some p) db c =
    elim (Bool-cases (a.base_version == some p.version)) [
      | inl e ↦ rw e (commit-IsConsistent now a (some p.version) (p.version + 1) db c (omega arith))
      | inr e ↦ rw e (audit-IsConsistent now _ db c)
    ]

write-IsConsistent :
    (now : ℕ) (a : PageWrite) (db : Db) → IsConsistent db → IsConsistent (write_page now a db).1
unfolding write_page
write-IsConsistent now a db c = write_found-IsConsistent now a (get_page a.path db) db c

append_log-IsConsistent :
    (now : ℕ) (a : LogArgs) (db : Db) → IsConsistent db → IsConsistent (append_log now a db).1
unfolding append_log
append_log-IsConsistent now a db c =
    let gv = suc db.global_version_seq in
    let id = suc db.log_entries_id_seq in
    let db₁ = record db {
      global_version_seq = gv;
      log_entries = db.log_entries ++ log_row id gv a ∷ [];
      log_entries_id_seq = id;
    } in
    let c₁ : IsConsistent db₁ = sequence-IsConsistent db db₁ c refl refl refl in
    audit-IsConsistent now _ _ (
      event-IsConsistent now (codes "LogAppended") none gv (log_payload id a) db₁
        db.global_version_seq c₁ c.log_bound (omega arith) (omega arith))

emit-IsConsistent :
    (now : ℕ) (permitted : Bool) (kind : Text) (path : Option Text) (payload : Value) (db : Db)
    → IsConsistent db
    → IsConsistent (ext_emit_event now permitted kind path payload db).1
unfolding ext_emit_event
emit-IsConsistent now false kind path payload db c = c
emit-IsConsistent now true kind path payload db c =
    let gv = suc db.global_version_seq in
    let db₁ = record db { global_version_seq = gv } in
    let c₁ : IsConsistent db₁ = sequence-IsConsistent db db₁ c refl refl refl in
    event-IsConsistent now kind path gv payload db₁ db.global_version_seq c₁ c.log_bound
      (omega arith) (omega arith)

ext_page-version :
    (now : ℕ) (path content : Text) (gv : ℕ) (o : Option PageRow)
    → (1 ≤ (ext_page now path content (next_version o) gv o).version)
      × ((ext_page now path content (next_version o) gv o).global_version ≡ gv)
ext_page-version now path content gv none = (omega arith, refl)
ext_page-version now path content gv (some p) = (omega arith, refl)

embed-IsConsistent :
    (now : ℕ) (path content : Text) (db : Db)
    → IsConsistent db
    → IsConsistent (ext_enqueue_embedding now path content db).1
unfolding ext_enqueue_embedding
embed-IsConsistent now path content db c =
    let o = get_page path db in
    let gv = suc db.global_version_seq in
    let page = ext_page now path content (next_version o) gv o in
    let stamped = ext_page-version now path content gv o in
    same-IsConsistent (record db { global_version_seq = gv; pages = upsert page_key page db.pages })
      (ext_enqueue_embedding now path content db).1
      (record { pages = refl; events = refl; sequence = refl })
      (upsert-IsConsistent db page c stamped.0 stamped.1)

pop-same : (n : ℕ) (db : Db) → SamePages db (pop_pending_embedding_job n db).1
unfolding pop_pending_embedding_job
pop-same n db = ground arith

complete-same :
    (now id : ℕ) (e : EmbeddingRow) (db d : Db)
    → complete_embedding_job now id e db ≡ some d
    → SamePages db d
unfolding complete_embedding_job
complete-same now id e db d h = ground arith

fail-same : (id : ℕ) (error : Text) (db : Db) → SamePages db (fail_embedding_job id error db)
unfolding fail_embedding_job
fail-same id error db = ground arith

add_server-same :
    (now : ℕ) (id : Text) (apps : List Text) (hash : Text) (db : Db)
    → SamePages db (add_server now id apps hash db).1
unfolding add_server
add_server-same now id apps hash db = ground arith

rotate-same :
    (now : ℕ) (id hash : Text) (db : Db) → SamePages db (update_server_token now id hash db).1
unfolding update_server_token
rotate-same now id hash db = ground arith

remove_server-same : (id : Text) (db : Db) → SamePages db (remove_server id db).1
unfolding remove_server
remove_server-same id db = ground arith

register-same :
    (now : ℕ) (name prefix role : Text) (owners : List Text) (policy : Value) (db : Db)
    → SamePages db (ext_register now name prefix role owners policy db).1
unfolding ext_register
register-same now name prefix role owners policy db = ground arith

create-same : (name : Text) (db : Db) → SamePages db (ext_create_table name db)
unfolding ext_create_table
create-same name db = ground arith

removed-same :
    (name prefix role : Text) (db : Db)
    → let db₁ =
        drop_role role
          (drop_tables (prefix ++ codes "%") (drop_pages (namespace_pattern name) db)) in
      SamePages
        (record db { pages = select (λ p. not (like p.path (namespace_pattern name))) db.pages })
        (record db₁ { extensions = remove extension_key name db₁.extensions })
removed-same name prefix role db = ground arith

deregister_found-IsConsistent :
    (drops : Bool) (name prefix role : Text) (o : Option ExtensionRow) (db : Db)
    → IsConsistent db
    → IsConsistent (deregister_found drops name prefix role o db).1
unfolding deregister_found
deregister_found-IsConsistent drops name prefix role none db c = c
deregister_found-IsConsistent drops name prefix role (some x) db c =
    elim (Bool-cases (any (λ r. r == role) db.roles && not drops)) [
      | inl e ↦ rw (e, deregister_found) c
      | inr e ↦ elim (Bool-cases (takes_extensions (prefix ++ codes "%"))) [
        | inl k ↦ rw (e, k, deregister_found) c
        | inr k ↦
            rw (e, k, deregister_found)
              (same-IsConsistent _ _ (removed-same name prefix role db)
                (drop_rows-IsConsistent db (λ p. not (like p.path (namespace_pattern name))) c))
      ]
    ]

deregister-IsConsistent :
    (drops : Bool) (name prefix role : Text) (db : Db)
    → IsConsistent db
    → IsConsistent (ext_deregister drops name prefix role db).1
unfolding ext_deregister
deregister-IsConsistent drops name prefix role db c =
    deregister_found-IsConsistent drops name prefix role (ext_get name db) db c

-- One call keeps consistent tables consistent.
pub Step-IsConsistent : {d e : Db} → Step d e → IsConsistent d → IsConsistent e
Step-IsConsistent {d} (write_page_step now a) c = write-IsConsistent now a d c
Step-IsConsistent {d} (append_log_step now a) c = append_log-IsConsistent now a d c
Step-IsConsistent {d} (pop_step n) c = same-IsConsistent d _ (pop-same n d) c
Step-IsConsistent {d} (complete_step now id e r h) c =
    same-IsConsistent d r (complete-same now id e d r h) c
Step-IsConsistent {d} (fail_step id error) c = same-IsConsistent d _ (fail-same id error d) c
Step-IsConsistent {d} (add_server_step now id apps hash) c =
    same-IsConsistent d _ (add_server-same now id apps hash d) c
Step-IsConsistent {d} (rotate_step now id hash) c =
    same-IsConsistent d _ (rotate-same now id hash d) c
Step-IsConsistent {d} (remove_server_step id) c = same-IsConsistent d _ (remove_server-same id d) c
Step-IsConsistent {d} (register_step now name prefix role owners policy) c =
    same-IsConsistent d _ (register-same now name prefix role owners policy d) c
Step-IsConsistent {d} (deregister_step drops name prefix role) c =
    deregister-IsConsistent drops name prefix role d c
Step-IsConsistent {d} (create_table_step name) c = same-IsConsistent d _ (create-same name d) c
Step-IsConsistent {d} (emit_step now permitted kind path payload) c =
    emit-IsConsistent now permitted kind path payload d c
Step-IsConsistent {d} (ext_exec_step pg sql params role same) c = same-IsConsistent d _ same c
Step-IsConsistent {d} (embed_step now path content) c = embed-IsConsistent now path content d c

-- From empty tables, after any calls of the database layer in any order, where the SQL that an extension
-- runs leaves the pages, the events and the global version as they are, each path has one page row,
-- page versions start at 1, no two pages share a global version, and the events run by strictly
-- rising global versions, none ahead of the sequence.
pub Reach-IsConsistent : {db : Db} → Reach db → IsConsistent db
Reach-IsConsistent start = IsConsistent-fresh
Reach-IsConsistent (next r s) = Step-IsConsistent s (Reach-IsConsistent r)
