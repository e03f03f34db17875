-- ===== src/Master/Db/Pages/Register.antt =====
-- What a client may rely on: the pages are registers, one for each path, with compare-and-set on the
-- version. The tables refine that over any sequence of calls.
use vaultmcp.Prelude.{ℕ, ◌+◌}
use vaultmcp.Prelude.{◌≡◌, refl, sym, ap, ◌∙◌, fun_ext, inl, inr}
use vaultmcp.Prelude.{Bool, true, false, Option, none, some, List, [], ◌∷◌}
use vaultmcp.Prelude.{arith, if◌then◌else◌, Bool-cases, Option-cases}
use vaultmcp.Prelude.{◌==◌, nat_Eq, list_Eq, option_Eq, option_eq_iff}
use vaultmcp.Prelude.{Text}
use vaultmcp.Master.Db.Rows.{Db, PageRow}
use vaultmcp.Master.Db.Events.{LogArgs, append_log}
use vaultmcp.Master.Db.Jobs.{pop_pending_embedding_job, next_job}
use vaultmcp.Master.Db.Pages.{
  PageWrite, WriteResult, WriteOutcome, ConflictResult, written, conflicted, get_page, write_page,
}
use vaultmcp.Master.Db.Pages.Write.{
  version_of, previous, conflict_of, is_written, write_page_accepts, get-write_page,
  write_page_conflict, get_page_same_pages,
}

-- A register: the version and the content, if it has been written.
abbrev pub Register : Type 0
Register = Option (ℕ × Text)

abbrev pub version_in : Register → Option ℕ
version_in none = none
version_in (some (v, content)) = some v

abbrev pub version_or_0 : Register → ℕ
version_or_0 none = 0
version_or_0 (some (v, content)) = v

abbrev pub content_or_empty : Register → Text
content_or_empty none = []
content_or_empty (some (v, content)) = content

abbrev pub Store : Type 0
Store = Text → Register

-- The calls, those that the registers do not see included.
pub data Call : Type 0 where
  write : ℕ → PageWrite → Call
  read : Text → Call
  log : ℕ → LogArgs → Call
  claim : ℕ → Call

pub data Answer : Type 0 where
  accepted : ℕ → Answer
  stale : ℕ → Text → Answer
  found : Register → Answer
  silent : Answer

-- The specification: a write that names the version of the register sets it to the next version.
abbrev pub spec_step : Call → Store → Answer × Store
spec_step (write now a) s =
    if a.base_version == version_in (s a.path)
    then (
      accepted (version_or_0 (s a.path) + 1),
      λ k. if a.path == k then some (version_or_0 (s a.path) + 1, a.content) else s k,
    )
    else (stale (version_or_0 (s a.path)) (content_or_empty (s a.path)), s)
spec_step (read path) s = (found (s path), s)
spec_step (log now a) s = (silent, s)
spec_step (claim max_attempts) s = (silent, s)

abbrev pub spec_run : List Call → Store → List Answer × Store
spec_run [] s = ([], s)
spec_run (c ∷ calls) s =
    let (answer, s') = spec_step c s in
    let (answers, s'') = spec_run calls s' in (answer ∷ answers, s'')

-- What the registers show of a row, and of the tables.
abbrev pub register_of : Option PageRow → Register
register_of none = none
register_of (some p) = some (p.version, p.content)

abbrev pub view : Db → Store
view db k = register_of (get_page k db)

abbrev pub answer_of : WriteOutcome → Answer
answer_of (written r) = accepted r.version
answer_of (conflicted c) = stale c.current_version c.current_content

-- The calls of the database layer, with the part of the answers that the registers speak of.
abbrev pub db_step : Call → Db → Answer × Db
db_step (write now a) db = let (o, db') = write_page now a db in (answer_of o, db')
db_step (read path) db = (found (register_of (get_page path db)), db)
db_step (log now a) db = (silent, (append_log now a db).1)
db_step (claim max_attempts) db = (silent, (pop_pending_embedding_job max_attempts db).1)

abbrev pub db_run : List Call → Db → List Answer × Db
db_run [] db = ([], db)
db_run (c ∷ calls) db =
    let (answer, db') = db_step c db in
    let (answers, db'') = db_run calls db' in (answer ∷ answers, db'')

version_of-register :
    (o : Option PageRow)
    → (version_of o ≡ version_in (register_of o))
      × (previous o ≡ version_or_0 (register_of o))
      × ((conflict_of o).current_version ≡ version_or_0 (register_of o))
      × ((conflict_of o).current_content ≡ content_or_empty (register_of o))
version_of-register none = (refl, refl, refl, refl)
version_of-register (some p) = (refl, refl, refl, refl)

same_view : (db db' : Db) → db'.pages ≡ db.pages → view db' ≡ view db
same_view db db' e = fun_ext (λ k. ap register_of (get_page_same_pages db' db k e))

written_view :
    (now : ℕ) (a : PageWrite) (db : Db) (r : WriteResult)
    → (write_page now a db).0 ≡ written r
    → view (write_page now a db).1
      ≡ (λ k. if a.path == k then some (r.version, a.content) else view db k)
written_view now a db r q = fun_ext (λ k. elim (Bool-cases (a.path == k)) [
  | inl e ↦ ap register_of ((get-write_page now a db r k q).2) ∙ rw e refl
  | inr e ↦ ap register_of ((get-write_page now a db r k q).2) ∙ rw e refl
])

write_refines :
    (now : ℕ) (a : PageWrite) (db : Db) (o : WriteOutcome)
    → (write_page now a db).0 ≡ o
    → (answer_of o ≡ (spec_step (write now a) (view db)).0)
      × (view (write_page now a db).1 ≡ (spec_step (write now a) (view db)).1)
write_refines now a db (written r) q =
    let o = get_page a.path db in
    let named : a.base_version ≡ version_in (view db a.path) =
      (write_page_accepts now a db).0 (rw q refl) ∙ (version_of-register o).0 in
    let next : r.version ≡ version_or_0 (view db a.path) + 1 =
      (get-write_page now a db r a.path q).0 ∙ ap (λ n. n + 1) (version_of-register o).1 in
    rw ((option_eq_iff a.base_version (version_in (view db a.path))).1 named) (
      ap accepted next,
      written_view now a db r q
          ∙ ap (λ n. λ k. if a.path == k then some (n, a.content) else view db k) next,
    )
write_refines now a db (conflicted c) q =
    let o = get_page a.path db in
    let told = write_page_conflict now a db c q in
    rw (refused (a.base_version == version_in (view db a.path)) refl) (
      ap (λ (x : ConflictResult). stale x.current_version x.current_content) told.0
          ∙ ap (λ n. stale n (conflict_of o).current_content) (version_of-register o).2
          ∙ ap (stale (version_or_0 (view db a.path))) (version_of-register o).3,
      same_view db (write_page now a db).1 (ap (λ (d : Db). d.pages) told.1.4),
    )
  where
    refused :
        (b : Bool)
        → (a.base_version == version_in (view db a.path)) ≡ b
        → (a.base_version == version_in (view db a.path)) ≡ false
    refused false e = e
    refused true e =
        let named = (option_eq_iff a.base_version (version_in (view db a.path))).0 e in
        let yes : is_written (write_page now a db).0 ≡ true =
          (write_page_accepts now a db).1
            (named ∙ sym (version_of-register (get_page a.path db)).0) in
        absurd (ground (arith, yes, q))

log_view : (now : ℕ) (a : LogArgs) (db : Db) → view (append_log now a db).1 ≡ view db
unfolding append_log
log_view now a db = same_view db (append_log now a db).1 refl

claim_view : (limit : ℕ) (db : Db) → view (pop_pending_embedding_job limit db).1 ≡ view db
unfolding pop_pending_embedding_job
claim_view limit db =
    same_view db (pop_pending_embedding_job limit db).1 (elim (Option-cases (next_job limit db)) [
      | inl q ↦ rw (q, pop_pending_embedding_job) refl
      | inr (j, q) ↦ rw (q, pop_pending_embedding_job) refl
    ])

step_refines :
    (c : Call) (db : Db)
    → ((db_step c db).0 ≡ (spec_step c (view db)).0)
      × (view (db_step c db).1 ≡ (spec_step c (view db)).1)
step_refines (write now a) db = write_refines now a db (write_page now a db).0 refl
step_refines (read path) db = (refl, refl)
step_refines (log now a) db = (refl, log_view now a db)
step_refines (claim limit) db = (refl, claim_view limit db)

-- Any sequence of calls gives the answers, and leaves the versions and contents, that registers with
-- compare-and-set would.
pub db_run_refines :
    (calls : List Call) (db : Db)
    → ((db_run calls db).0 ≡ (spec_run calls (view db)).0)
      × (view (db_run calls db).1 ≡ (spec_run calls (view db)).1)
db_run_refines [] db = (refl, refl)
db_run_refines (c ∷ calls) db =
    let one = step_refines c db in
    let rest = db_run_refines calls (db_step c db).1 in
    let same : spec_run calls (view (db_step c db).1) ≡ spec_run calls (spec_step c (view db)).1 =
      ap (spec_run calls) one.1 in
    (
      ap (λ x. x ∷ (db_run calls (db_step c db).1).0) one.0
          ∙ ap (λ xs. (spec_step c (view db)).0 ∷ xs)
              (rest.0 ∙ ap (λ (x : List Answer × Store). x.0) same),
      rest.1 ∙ ap (λ (x : List Answer × Store). x.1) same,
    )
