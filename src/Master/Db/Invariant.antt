-- ===== src/Master/Db/Invariant.antt =====
-- The consistency of the tables, which every operation of src/vaultmcp/master/db.py keeps.
pub mod Steps
use vaultmcp.Prelude.{ℕ, zero, suc, ◌+◌, ◌-◌, ◌*◌, ◌/◌, ◌%◌, ◌^◌, ◌≤◌, ◌<◌, min, max, String}
use vaultmcp.Prelude.{◌≡◌, refl, sym, ap, ◌∙◌, fun_ext, ◌≢◌, ◌↔◌, ◌⊎◌, inl, inr}
use vaultmcp.Prelude.{Bool, true, false, not, ◌&&◌, ◌||◌, Option, none, some, List, [], ◌∷◌, ◌++◌}
use vaultmcp.Prelude.{
  map, reverse, arith, ltb, leb, nat_eq, if◌then◌else◌, Bool-cases, Option-cases,
}
use vaultmcp.Prelude.{
  Eq, ◌==◌, nat_Eq, list_Eq, option_Eq, list_eq_iff, option_eq_iff, nat_eq_iff, beq_refl,
}
use vaultmcp.Prelude.{
  length, take, drop, last?, select, find, any, all, All, length-append, length-take,
}
use vaultmcp.Prelude.{take_all, place, sort_by, Result, ok, err, ◌>>=◌, ◌>>◌, guard}
use vaultmcp.Shared.Value.{Value}
use vaultmcp.Prelude.{
  Text, codes, starts_with, is_space, lstrip, rstrip, strip, partition, split, join, text_le,
}
use vaultmcp.Master.Db.Rows.{Db, PageRow, EventRow, JobRow, EmbeddingRow, fresh}
use vaultmcp.Master.Db.Tables.{lookup, upsert, lookup-upsert}
use vaultmcp.Master.Db.Tables.Keys.{
  Pairwise, All-append, All-mono, All-where, Pairwise-where, Pairwise-append, All-upsert,
  Pairwise-upsert, NodupKeys, NodupKeys-upsert,
}
use vaultmcp.Master.Db.Pages.{
  page_key, get_page, put_page, insert_event, insert_job, PageWrite, page_row,
}

abbrev pub Numbered : ℕ → PageRow → Type 0
Numbered n p = (1 ≤ p.version) × (p.global_version ≤ n)

abbrev pub Announced : ℕ → EventRow → Type 0
Announced n e = e.global_version ≤ n

abbrev pub DistinctStamps : PageRow → PageRow → Type 0
DistinctStamps p q = p.global_version ≢ q.global_version

abbrev pub Precedes : EventRow → EventRow → Type 0
Precedes a b = a.global_version < b.global_version

pub record IsConsistent (db : Db) : Type 0 where
  -- a path has one row
  pub paths : NodupKeys page_key db.pages
  -- versions count from 1, and no global version is ahead of the sequence
  pub versions : All (Numbered db.global_version_seq) db.pages
  -- a global version names one page
  pub stamps : Pairwise DistinctStamps db.pages
  -- the event log runs by rising global versions
  pub log : Pairwise Precedes db.events
  pub log_bound : All (Announced db.global_version_seq) db.events

Numbered-suc : (n : ℕ) (ps : List PageRow) → All (Numbered n) ps → All (Numbered (suc n)) ps
Numbered-suc n ps h = All-mono (Numbered n) (Numbered (suc n)) ps (λ p k. omega arith) h

Announced-suc : (n : ℕ) (es : List EventRow) → All (Announced n) es → All (Announced (suc n)) es
Announced-suc n es h = All-mono (Announced n) (Announced (suc n)) es (λ p k. omega arith) h

-- A new row with the next global version.
pub upsert-IsConsistent :
    (db : Db) (p : PageRow)
    → IsConsistent db
    → 1 ≤ p.version
    → p.global_version ≡ suc db.global_version_seq
    → IsConsistent (record db {
      global_version_seq = suc db.global_version_seq;
      pages = upsert page_key p db.pages;
    })
upsert-IsConsistent db p c v g = record {
  paths = NodupKeys-upsert page_key p db.pages c.paths;
  versions =
      All-upsert page_key (Numbered (suc db.global_version_seq)) p db.pages (omega arith)
        (Numbered-suc db.global_version_seq db.pages c.versions);
  stamps =
      Pairwise-upsert page_key DistinctStamps p db.pages
        (All-mono (Numbered db.global_version_seq) (λ q. DistinctStamps q p) db.pages
          (λ q k e. omega arith) c.versions)
        (All-mono (Numbered db.global_version_seq) (DistinctStamps p) db.pages
          (λ q k e. omega arith) c.versions)
        c.stamps;
  log = c.log;
  log_bound = Announced-suc db.global_version_seq db.events c.log_bound;
}

-- One more event, stamped later than all before it.
pub event-IsConsistent :
    (now : ℕ) (kind : Text) (path : Option Text) (gv : ℕ) (payload : Value) (db : Db) (n : ℕ)
    → IsConsistent db
    → All (Announced n) db.events
    → n < gv
    → gv ≤ db.global_version_seq
    → IsConsistent (insert_event now kind path gv payload db)
unfolding insert_event
event-IsConsistent now kind path gv payload db n c old lt le =
    let e : EventRow = record {
      id = suc db.events_id_seq;
      ts = now;
      event_type = kind;
      path = path;
      global_version = gv;
      payload = payload;
    } in
    record {
      paths = c.paths;
      versions = c.versions;
      stamps = c.stamps;
      log =
          Pairwise-append Precedes db.events e c.log
            (All-mono (Announced n) (λ x. Precedes x e) db.events (λ x k. omega arith) old);
      log_bound =
          All-append (Announced db.global_version_seq) db.events (e ∷ []) c.log_bound (le, tt);
    }

-- Rows that are dropped, and rows of other tables, do not count.
pub drop_rows-IsConsistent :
    (db : Db) (keep : PageRow → Bool)
    → IsConsistent db
    → IsConsistent (record db { pages = select keep db.pages })
drop_rows-IsConsistent db keep c = record {
  paths = Pairwise-where (λ a b. (page_key a == page_key b) ≡ false) keep db.pages c.paths;
  versions = All-where (Numbered db.global_version_seq) keep db.pages c.versions;
  stamps = Pairwise-where DistinctStamps keep db.pages c.stamps;
  log = c.log;
  log_bound = c.log_bound;
}

pub record SamePages (d e : Db) : Type 0 where
  pub pages : d.pages ≡ e.pages
  pub events : d.events ≡ e.events
  pub sequence : d.global_version_seq ≡ e.global_version_seq

pub same-IsConsistent : (d e : Db) → SamePages d e → IsConsistent d → IsConsistent e
same-IsConsistent d e s c = record {
  paths = rw (← s.pages) c.paths;
  versions = rw (← s.pages, ← s.sequence) c.versions;
  stamps = rw (← s.pages) c.stamps;
  log = rw (← s.events) c.log;
  log_bound = rw (← s.events, ← s.sequence) c.log_bound;
}

-- A number drawn from the sequence and not used yet.
pub sequence-IsConsistent :
    (d e : Db)
    → IsConsistent d
    → d.pages ≡ e.pages
    → d.events ≡ e.events
    → suc d.global_version_seq ≡ e.global_version_seq
    → IsConsistent e
sequence-IsConsistent d e c p v s = record {
  paths = rw (← p) c.paths;
  versions = rw (← p, ← s) (Numbered-suc d.global_version_seq d.pages c.versions);
  stamps = rw (← p) c.stamps;
  log = rw (← v) c.log;
  log_bound = rw (← v, ← s) (Announced-suc d.global_version_seq d.events c.log_bound);
}

pub IsConsistent-fresh : IsConsistent fresh
IsConsistent-fresh = record { paths = tt; versions = tt; stamps = tt; log = tt; log_bound = tt }
