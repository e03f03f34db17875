-- ===== src/Tests/Writes.antt =====
-- The write path at concrete calls.
use vaultmcp.Prelude.{List, All, ◌≤◌, ◌⊎◌, length}
use vaultmcp.Master.Db.Rows.{EventRow}
use vaultmcp.Master.Db.Events.Replay.{AllNewer}
use vaultmcp.Master.Db.Pages.{read_cursor}
use vaultmcp.Prelude.{
  suc, ◌+◌, ◌≡◌, refl, none, some, [], ◌∷◌, ◌++◌, codes, ◌↔◌, true, take, select, ◌==◌, list_Eq,
  nat_Eq, if◌then◌else◌,
}
use vaultmcp.Master.Db.Rows.{Db, AuditRow, Outcome, fresh}
use vaultmcp.Prelude.{drop, sort_by}
use vaultmcp.Master.Db.Pages.{PageWrite, PageFilter, list_pages, later, page_matches, next_cursor}
use vaultmcp.Master.Db.Pages.Listing.{list_pages_continues}
use vaultmcp.Master.Db.Audit.{audit_row}
use vaultmcp.Master.Db.Pages.{
  write_page, written, conflicted, WriteResult, ConflictResult, get_page, page_row, write_audit,
  version_payload,
}
use vaultmcp.Master.Db.Pages.Write.{
  write_page_accepts, get-write_page, write_page_records, write_page_conflict, no_lost_update,
  is_written, version_of, previous, conflict_of,
}
use vaultmcp.Master.Db.Invariant.{IsConsistent}
use vaultmcp.Master.Db.Invariant.Steps.{Reach, start, next, write_page_step, Reach-IsConsistent}
use vaultmcp.Master.Db.Events.{events_since}
use vaultmcp.Master.Db.Events.Replay.{events_since_lem}
use vaultmcp.Tests.Data.{home_write, one_page}

abbrev first_result : WriteResult
first_result = record { path = codes "a.md"; version = 1; global_version = 1; applied_at = 5 }

first_is_written : (write_page 5 (home_write none (codes "one")) fresh).0 ≡ written first_result
unfolding write_page
first_is_written = refl

write_page_accepts_example :
    (is_written (write_page 6 (home_write (some 1) (codes "two")) one_page).0 ≡ true)
    ↔ (some 1 ≡ version_of (get_page (codes "a.md") one_page))
write_page_accepts_example = write_page_accepts 6 (home_write (some 1) (codes "two")) one_page

get-write_page_example :
    (1 ≡ previous (get_page (codes "a.md") fresh) + 1)
    × (1 ≡ 0 + 1)
    × (get_page (codes "a.md") one_page ≡ (
        if codes "a.md" == codes "a.md"
        then some (page_row (home_write none (codes "one")) 1 1)
        else get_page (codes "a.md") fresh))
get-write_page_example =
    get-write_page 5 (home_write none (codes "one")) fresh first_result (codes "a.md")
      first_is_written

write_page_records_example :
    (one_page.events
      ≡ []
        ++ record {
          id = 1;
          ts = 5;
          event_type = codes "PageChanged";
          path = some (codes "a.md");
          global_version = 1;
          payload = version_payload 1;
        }
          ∷ [])
    × (one_page.audit
        ≡ []
          ++ audit_row 1 5 (
              write_audit
                (home_write none (codes "one"))
                (version_of (get_page (codes "a.md") fresh))
                (some 1)
                Outcome.succeeded
                none)
            ∷ [])
write_page_records_example =
    write_page_records 5 (home_write none (codes "one")) fresh first_result first_is_written

abbrev first_conflict : ConflictResult
first_conflict = record {
  current_version = 1;
  current_content = codes "one";
  last_writer = codes "s1";
}

stale_is_refused :
    (write_page 6 (home_write none (codes "two")) one_page).0 ≡ conflicted first_conflict
unfolding write_page
stale_is_refused = refl

write_page_conflict_example :
    (first_conflict ≡ conflict_of (get_page (codes "a.md") one_page))
    × ((row : AuditRow) × (row.outcome ≡ Outcome.conflict)
        × (row.version_before ≡ version_of (get_page (codes "a.md") one_page))
        × (row.version_after ≡ none)
        × ((write_page 6 (home_write none (codes "two")) one_page).1 ≡ record one_page {
          audit = one_page.audit ++ row ∷ [];
          audit_id_seq = suc one_page.audit_id_seq;
        }))
write_page_conflict_example =
    write_page_conflict 6 (home_write none (codes "two")) one_page first_conflict stale_is_refused

abbrev second_result : WriteResult
second_result = record { path = codes "a.md"; version = 2; global_version = 2; applied_at = 6 }

second_is_written :
    (write_page 6 (home_write (some 1) (codes "two")) one_page).0 ≡ written second_result
unfolding write_page
second_is_written = refl

first_is_there :
    get_page (codes "a.md") one_page ≡ some (page_row (home_write none (codes "one")) 1 1)
unfolding get_page write_page
first_is_there = refl

no_lost_update_example :
    (write_page 7
      (home_write (some 1) (codes "three"))
      (write_page 6 (home_write (some 1) (codes "two")) one_page).1).0
    ≡ conflicted
        (record { current_version = 2; current_content = codes "two"; last_writer = codes "s1" })
no_lost_update_example =
    no_lost_update 6 7 (home_write (some 1) (codes "two")) (home_write (some 1) (codes "three"))
      one_page (page_row (home_write none (codes "one")) 1 1) second_result first_is_there
      second_is_written refl refl

abbrev second_write : PageWrite
second_write = record (home_write none (codes "two")) { path = codes "b.md" }

abbrev two_pages : Db
two_pages = (write_page 6 second_write one_page).1

one_page-Reach : Reach one_page
one_page-Reach = next start (write_page_step 5 (home_write none (codes "one")))

two_pages-Reach : Reach two_pages
two_pages-Reach = next one_page-Reach (write_page_step 6 second_write)

Reach-IsConsistent_example : IsConsistent one_page
Reach-IsConsistent_example = Reach-IsConsistent one_page-Reach

events_since_lem_example :
    (before : List EventRow) × (after : List EventRow) × (one_page.events
      ≡ before ++ (events_since 0 10 one_page ++ after))
    × All (λ (e : EventRow). e.global_version ≤ 0) before
    × AllNewer 0 (events_since 0 10 one_page)
    × ((after ≡ []) ⊎ (length (events_since 0 10 one_page) ≡ 10))
events_since_lem_example = events_since_lem one_page 0 10 Reach-IsConsistent_example

abbrev one_by_one : PageFilter
one_by_one = record {
  prefix = none;
  type_filter = none;
  updated_since = none;
  limit = 1;
  cursor = none;
}

first_listing :
    list_pages one_by_one two_pages ≡ some (page_row second_write 1 2 ∷ [], some (codes "2"))
unfolding list_pages write_page
first_listing = refl

no_cursor : read_cursor one_by_one.cursor ≡ some none
unfolding read_cursor
no_cursor = refl

list_pages_continues_example :
    let all_rows = sort_by later (select (page_matches one_by_one none) two_pages.pages) in
    let next_rows = take 1 (drop 1 all_rows) in
    (page_row second_write 1 2 ∷ [] ≡ take 1 all_rows)
    × (list_pages (record one_by_one { cursor = some (codes "2") }) two_pages
        ≡ some (next_rows, next_cursor 1 next_rows))
list_pages_continues_example =
    list_pages_continues two_pages one_by_one none (page_row second_write 1 2 ∷ []) (codes "2")
      (Reach-IsConsistent two_pages-Reach) no_cursor first_listing
