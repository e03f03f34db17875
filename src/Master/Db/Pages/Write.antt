-- ===== src/Master/Db/Pages/Write.antt =====
-- `write_page`: which calls are accepted, what they change and what they leave alone.
use vaultmcp.Prelude.{ℕ, suc, ◌+◌}
use vaultmcp.Prelude.{◌≡◌, refl, sym, ap, ◌∙◌, ◌≢◌, ◌↔◌}
use vaultmcp.Prelude.{Bool, true, false, Option, none, some, [], ◌∷◌, ◌++◌}
use vaultmcp.Prelude.{arith, if◌then◌else◌}
use vaultmcp.Prelude.{◌==◌, nat_Eq, list_Eq, option_Eq, option_eq_iff, beq_refl}
use vaultmcp.Prelude.{Text, codes}
use vaultmcp.Master.Db.Rows.{Db, PageRow, AuditRow, Outcome}
use vaultmcp.Master.Db.Tables.{lookup, lookup-upsert}
use vaultmcp.Master.Db.Audit.{audit_row}
use vaultmcp.Master.Db.Pages.{
  PageWrite, WriteResult, ConflictResult, WriteOutcome, written, conflicted, get_page, page_key,
  page_row, write_page, write_found, put_page, write_audit, version_payload,
}

abbrev pub version_of : Option PageRow → Option ℕ
version_of none = none
version_of (some p) = some p.version

abbrev pub is_written : WriteOutcome → Bool
is_written (written r) = true
is_written (conflicted c) = false

-- A write is accepted exactly when the `base_version` that it names is the version of the page now,
-- with none standing for a page that is not there.
pub write_page_accepts :
    (now : ℕ) (a : PageWrite) (db : Db)
    → (is_written (write_page now a db).0 ≡ true)
      ↔ (a.base_version ≡ version_of (get_page a.path db))
unfolding write_page
write_page_accepts now a db = go (get_page a.path db)
  where
    go :
        (o : Option PageRow)
        → (is_written (write_found now a o db).0 ≡ true) ↔ (a.base_version ≡ version_of o)
    go none = ground arith
    go (some p) = ground (arith, option_eq_iff a.base_version (some p.version))

abbrev pub previous : Option PageRow → ℕ
previous none = 0
previous (some p) = p.version

get-put_page :
    (a : PageWrite) (version : ℕ) (db : Db) (k : Text)
    → get_page k (put_page a version db) ≡ (
        if a.path == k
        then some (page_row a version (suc db.global_version_seq))
        else get_page k db)
unfolding get_page put_page
get-put_page a version db k =
    lookup-upsert page_key (page_row a version (suc db.global_version_seq)) k db.pages

abbrev pub conflict_of : Option PageRow → ConflictResult
conflict_of none = record { current_version = 0; current_content = []; last_writer = [] }
conflict_of (some p) = record {
  current_version = p.version;
  current_content = p.content;
  last_writer = p.last_writer_server;
}

-- What an accepted write leaves: the page under its path with the next version and a fresh global
-- version, every other page as it was.
pub get-write_page :
    (now : ℕ) (a : PageWrite) (db : Db) (r : WriteResult) (k : Text)
    → (write_page now a db).0 ≡ written r
    → (r.version ≡ previous (get_page a.path db) + 1)
      × (r.global_version ≡ db.global_version_seq + 1)
      × (get_page k (write_page now a db).1
          ≡ (if a.path == k then some (page_row a r.version r.global_version) else get_page k db))
unfolding write_page
get-write_page now a db r k h = go (get_page a.path db) h
  where
    go :
        (o : Option PageRow)
        → (write_found now a o db).0 ≡ written r
        → (r.version ≡ previous o + 1)
          × (r.global_version ≡ db.global_version_seq + 1)
          × (get_page k (write_found now a o db).1 ≡ (
              if a.path == k then some (page_row a r.version r.global_version) else get_page k db))
    go none e = ground (arith, get-put_page a 1 db k)
    go (some p) e = ground (arith, get-put_page a (p.version + 1) db k)

-- An accepted write appends one PageChanged event that carries the page's path and the global
-- version returned, and one audit row that names the versions before and after it.
pub write_page_records :
    (now : ℕ) (a : PageWrite) (db : Db) (r : WriteResult)
    → (write_page now a db).0 ≡ written r
    → ((write_page now a db).1.events
        ≡ db.events
          ++ record {
            id = suc db.events_id_seq;
            ts = now;
            event_type = codes "PageChanged";
            path = some a.path;
            global_version = r.global_version;
            payload = version_payload r.version;
          }
            ∷ [])
      × ((write_page now a db).1.audit
          ≡ db.audit
            ++ audit_row (suc db.audit_id_seq) now (
                write_audit a
                  (version_of (get_page a.path db))
                  (some r.version)
                  Outcome.succeeded
                  none)
              ∷ [])
unfolding write_page
write_page_records now a db r h = go (get_page a.path db) h
  where
    go :
        (o : Option PageRow)
        → (write_found now a o db).0 ≡ written r
        → ((write_found now a o db).1.events
            ≡ db.events
              ++ record {
                id = suc db.events_id_seq;
                ts = now;
                event_type = codes "PageChanged";
                path = some a.path;
                global_version = r.global_version;
                payload = version_payload r.version;
              }
                ∷ [])
          × ((write_found now a o db).1.audit
              ≡ db.audit
                ++ audit_row
                    (suc db.audit_id_seq)
                    now
                    (write_audit a (version_of o) (some r.version) Outcome.succeeded none)
                  ∷ [])
    go none e = ground arith
    go (some p) e = ground arith

-- A rejected write tells the version, content and writer that are there, changes no page, event,
-- job or global version, and appends one audit row with outcome conflict.
pub write_page_conflict :
    (now : ℕ) (a : PageWrite) (db : Db) (c : ConflictResult)
    → (write_page now a db).0 ≡ conflicted c
    → (c ≡ conflict_of (get_page a.path db))
      × ((row : AuditRow) × (row.outcome ≡ Outcome.conflict)
          × (row.version_before ≡ version_of (get_page a.path db))
          × (row.version_after ≡ none)
          × ((write_page now a db).1
              ≡ record db { audit = db.audit ++ row ∷ []; audit_id_seq = suc db.audit_id_seq }))
unfolding write_page
write_page_conflict now a db c h = go (get_page a.path db) h
  where
    go :
        (o : Option PageRow)
        → (write_found now a o db).0 ≡ conflicted c
        → (c ≡ conflict_of o)
          × ((row : AuditRow) × (row.outcome ≡ Outcome.conflict)
              × (row.version_before ≡ version_of o)
              × (row.version_after ≡ none)
              × ((write_found now a o db).1
                  ≡ record db { audit = db.audit ++ row ∷ []; audit_id_seq = suc db.audit_id_seq }))
    go none e = (
      ground arith,
      (
        audit_row (suc db.audit_id_seq) now (
            write_audit a none none Outcome.conflict
              (some (codes "not_found_but_base_version_supplied"))),
        refl,
        refl,
        refl,
        ground arith,
      ),
    )
    go (some p) e = (
      ground arith,
      (
        audit_row (suc db.audit_id_seq) now
            (write_audit a (some p.version) none Outcome.conflict none),
        refl,
        refl,
        refl,
        ground arith,
      ),
    )

-- Tables with the same pages read alike.
pub get_page_same_pages :
    (db db' : Db) (k : Text) → db.pages ≡ db'.pages → get_page k db ≡ get_page k db'
unfolding get_page
get_page_same_pages db db' k e = ap (lookup page_key k) e

pub get-write_page_elsewhere :
    (now : ℕ) (a : PageWrite) (db : Db) (k : Text)
    → (a.path == k) ≡ false
    → get_page k (write_page now a db).1 ≡ get_page k db
get-write_page_elsewhere now a db k n = go (write_page now a db).0 refl
  where
    go :
        (o : WriteOutcome)
        → (write_page now a db).0 ≡ o
        → get_page k (write_page now a db).1 ≡ get_page k db
    go (written r) q = (get-write_page now a db r k q).2 ∙ rw n refl
    go (conflicted c) q =
        get_page_same_pages (write_page now a db).1 db k
          (ap (λ (d : Db). d.pages) (write_page_conflict now a db c q).1.4)

stale_write :
    (now : ℕ) (b : PageWrite) (db : Db) (p : PageRow)
    → get_page b.path db ≡ some p
    → b.base_version ≢ some p.version
    → (write_page now b db).0 ≡ conflicted (conflict_of (some p))
unfolding write_page
stale_write now b db p found stale = go (get_page b.path db) found
  where
    go :
        (o : Option PageRow)
        → o ≡ some p
        → (write_found now b o db).0 ≡ conflicted (conflict_of (some p))
    go none e = cc
    go (some q) e = ground (arith, stale, option_eq_iff b.base_version (some q.version))

next_not_previous : (o : Option PageRow) → version_of o ≢ some (previous o + 1)
next_not_previous none e = cc
next_not_previous (some p) e = ground arith

page_after_write :
    (now : ℕ) (a : PageWrite) (db : Db) (r : WriteResult)
    → (write_page now a db).0 ≡ written r
    → get_page a.path (write_page now a db).1 ≡ some (page_row a r.version r.global_version)
page_after_write now a db r h =
    let same : (a.path == a.path) ≡ true = beq_refl a.path in
    rw ((get-write_page now a db r a.path h).2, same)

-- Of two writers that start from the same version of a page that is there, the second is told of the
-- first: after an accepted write, a write with the same base is rejected with the first one's content.
pub no_lost_update :
    (now then' : ℕ) (a b : PageWrite) (db : Db) (p : PageRow) (r : WriteResult)
    → get_page a.path db ≡ some p
    → (write_page now a db).0 ≡ written r
    → b.path ≡ a.path
    → b.base_version ≡ a.base_version
    → (write_page then' b (write_page now a db).1).0
      ≡ conflicted (record {
        current_version = r.version;
        current_content = a.content;
        last_writer = a.last_writer_server;
      })
no_lost_update now then' a b db p r there h samePath sameBase =
    stale_write then' b (write_page now a db).1 (page_row a r.version r.global_version)
      (rw samePath (page_after_write now a db r h))
      λ e. next_not_previous (get_page a.path db) (
        sym ((write_page_accepts now a db).0 (rw h refl))
        ∙ sym sameBase
        ∙ e
        ∙ ap some (get-write_page now a db r a.path h).0)
