-- ===== src/Master/Tools/Write.antt =====
-- What an answer of `handle_write` says about the call and about the world after it.
use vaultmcp.Prelude.{true, false}
use vaultmcp.Prelude.{ℕ, ◌+◌, ◌<◌}
use vaultmcp.Prelude.{◌≡◌, refl, ap, ◌∙◌}
use vaultmcp.Prelude.{Bool, true, Option, none, some}
use vaultmcp.Prelude.{arith}
use vaultmcp.Prelude.{◌==◌, nat_Eq, list_Eq, option_Eq, list_eq_iff, beq_refl}
use vaultmcp.Prelude.{any}
use vaultmcp.Prelude.{Result, ok, err, ◌>>=◌}
use vaultmcp.Prelude.{Text}
use vaultmcp.Shared.Value.{Fields}
use vaultmcp.Shared.FilePath.{Parts, Disk, resolve, is_relative_to, file_at}
use vaultmcp.Master.Errors.{internal}
use vaultmcp.Master.Errors.{ToolError, status}
use vaultmcp.Master.Auth.{AuthenticatedServer}
use vaultmcp.Master.Validation.{validate_write_content, parsed}
use vaultmcp.Master.Render.{
  Rendered, rendered, escapes, os_error, render_to_disk, render_stays_inside,
}
use vaultmcp.Master.Db.Rows.{Db}
use vaultmcp.Master.Db.Pages.{
  PageWrite, WriteOutcome, WriteResult, ConflictResult, written, conflicted, get_page, write_page,
  page_row,
}
use vaultmcp.Master.Db.Pages.Write.{
  version_of, write_page_accepts, get-write_page, write_page_conflict, previous,
}
use vaultmcp.Master.Tools.{
  Env, World, Settings, WriteInput, WriteOutput, enforce_session_matches_server, check_ownership,
  page_write, admit_write, after_write, after_render, write_admitted, handle_write, write_output,
  encoded,
}

-- The caller is the server that it says it is, for an app of that server.
abbrev pub IsCaller : Option AuthenticatedServer → WriteInput → Type 0
IsCaller none inp = Unit
IsCaller (some s) inp =
    (inp.session.server_id ≡ s.id) × (any (λ a. a == inp.session.app) s.apps ≡ true)

session_checked :
    (authed : Option AuthenticatedServer) (inp : WriteInput)
    → enforce_session_matches_server inp.session.server_id inp.session.app authed ≡ ok tt
    → IsCaller authed inp
unfolding enforce_session_matches_server
session_checked none inp h = tt
session_checked (some s) inp h = ground (arith, list_eq_iff inp.session.server_id s.id)

metadata_of :
    (r : Result ToolError (Fields × Text)) (metadata : Fields)
    → (r >>= λ (m, body). ok m) ≡ ok metadata
    → (body : Text) × (r ≡ ok (metadata, body))
metadata_of (ok (m, body)) metadata h = (body, ground arith)
metadata_of (err e) metadata h = cc

module _ (env : Env) (settings : Settings) (authed : Option AuthenticatedServer)
    (inp : WriteInput) where
  pub record IsAdmitted (metadata : Fields) : Type 0 where
    pub caller : IsCaller authed inp
    pub owned : check_ownership settings.ownership inp.path inp.session.app ≡ ok tt
    pub valid : validate_write_content env.unicode env.codec inp.content settings.max_bytes ≡ ok tt
    pub described : (body : Text) × (parsed env.codec inp.content ≡ ok (metadata, body))

  admitted :
      (metadata : Fields) → admit_write env settings authed inp ≡ ok metadata → IsAdmitted metadata
  unfolding admit_write
  admitted metadata h =
      let steps : (enforce_session_matches_server inp.session.server_id inp.session.app authed
            ≡ ok tt)
          × (check_ownership settings.ownership inp.path inp.session.app ≡ ok tt)
          × (validate_write_content env.unicode env.codec inp.content settings.max_bytes ≡ ok tt)
          × ((parsed env.codec inp.content >>= λ (m, body). ok m) ≡ ok metadata) =
        ground arith in
      record {
        caller = session_checked authed inp steps.0;
        owned = steps.1;
        valid = steps.2;
        described = metadata_of (parsed env.codec inp.content) metadata steps.3;
      }

abbrev pub Unchanged : World → World → Type 0
Unchanged w w' =
    (w'.db.pages ≡ w.db.pages)
    × (w'.db.events ≡ w.db.events)
    × (w'.db.embedding_jobs ≡ w.db.embedding_jobs)
    × (w'.disk ≡ w.disk)

conflict-Unchanged :
    (now : ℕ) (a : PageWrite) (w : World) (c : ConflictResult)
    → (write_page now a w.db).0 ≡ conflicted c
    → Unchanged w (record { db = (write_page now a w.db).1; disk = w.disk })
conflict-Unchanged now a w c h =
    let row = (write_page_conflict now a w.db c h).1 in
    let same = row.4 in
    (
      ap (λ (d : Db). d.pages) same,
      ap (λ (d : Db). d.events) same,
      ap (λ (d : Db). d.embedding_jobs) same,
      refl,
    )

render_fails_500 :
    (r : WriteResult) (db : Db) (disk : Disk) (x : Rendered) (e : ToolError)
    → (after_render r db disk x).0 ≡ err e
    → status e ≡ 500
unfolding after_render status
render_fails_500 r db disk (rendered d) e h = cc
render_fails_500 r db disk escapes e h = ground arith
render_fails_500 r db disk os_error e h = ground arith

-- Whatever holds of the answer and of the exception of the encoder holds of what comes of the two.
pub encoded_cases :
    (P : Result ToolError WriteOutput × World → Type 0) (storable : Bool) (w : World)
    (o : WriteOutcome) (answer : Result ToolError WriteOutput × World)
    → P answer
    → P (err internal, w)
    → P (encoded storable w o answer)
unfolding encoded
encoded_cases P true w o answer h k = h
encoded_cases P false w (conflicted c) answer h k = h
encoded_cases P false w (written r) answer h k = k

refused_after :
    (env : Env) (settings : Settings) (inp : WriteInput) (w : World) (a : PageWrite) (e : ToolError)
    (o : WriteOutcome)
    → (write_page env.now a w.db).0 ≡ o
    → (after_write env settings inp w.disk (o, (write_page env.now a w.db).1)).0 ≡ err e
    → status e < 500
    → Unchanged w (after_write env settings inp w.disk (o, (write_page env.now a w.db).1)).1
unfolding after_write
refused_after env settings inp w a e (conflicted c) q h lt = conflict-Unchanged env.now a w c q
refused_after env settings inp w a e (written r) q h lt =
    absurd (omega (arith, render_fails_500 r _ w.disk _ e h))

-- A write that is answered by a client error (a status below 500) leaves every page, event, job and
-- page file as it was.
pub handle_write_refused :
    (env : Env) (settings : Settings) (authed : Option AuthenticatedServer) (inp : WriteInput)
    (w : World) (e : ToolError)
    → (handle_write env settings authed inp w).0 ≡ err e
    → status e < 500
    → Unchanged w (handle_write env settings authed inp w).1
unfolding handle_write
handle_write_refused env settings authed inp w e h lt = go (admit_write env settings authed inp) h
  where
    go :
        (r : Result ToolError Fields)
        → (write_admitted env settings inp w r).0 ≡ err e
        → Unchanged w (write_admitted env settings inp w r).1
    go (err x) k = (refl, refl, refl, refl)
    go (ok m) k =
        let outcome = write_page env.now (page_write env inp m) w.db in
        encoded_cases (λ x. x.0 ≡ err e → Unchanged w x.1) (env.storable m) w outcome.0
          (after_write env settings inp w.disk outcome)
          (λ q. refused_after env settings inp w (page_write env inp m) e outcome.0 refl q lt)
          (λ q. (refl, refl, refl, refl)) k

stored_file :
    (r : WriteResult) (db : Db) (disk : Disk) (works : Bool) (wiki_dir : Parts)
    (path content : Text) (out : WriteOutput)
    → (after_render r db disk (render_to_disk works wiki_dir path content disk)).0 ≡ ok out
    → (out ≡ write_output r)
      × ((after_render r db disk (render_to_disk works wiki_dir path content disk)).1.db ≡ db)
      × (is_relative_to (resolve wiki_dir path) wiki_dir ≡ true)
      × (file_at
            (resolve wiki_dir path)
            (after_render r db disk (render_to_disk works wiki_dir path content disk)).1.disk
          ≡ some content)
unfolding after_render
stored_file r db disk works wiki_dir path content out h =
    go (render_to_disk works wiki_dir path content disk) refl h
  where
    go :
        (x : Rendered)
        → render_to_disk works wiki_dir path content disk ≡ x
        → (after_render r db disk x).0 ≡ ok out
        → (out ≡ write_output r)
          × ((after_render r db disk x).1.db ≡ db)
          × (is_relative_to (resolve wiki_dir path) wiki_dir ≡ true)
          × (file_at (resolve wiki_dir path) (after_render r db disk x).1.disk ≡ some content)
    go (rendered d) q k =
        let facts =
          render_stays_inside works wiki_dir path content disk d (resolve wiki_dir path) q in
        (ground arith, refl, facts.0, facts.1 ∙ rw (beq_refl (resolve wiki_dir path)) refl)
    go escapes q k = cc
    go os_error q k = cc

module _ (env : Env) (settings : Settings) (authed : Option AuthenticatedServer) (inp : WriteInput)
    (w w' : World) (out : WriteOutput) where
  -- The page and the page file after an accepted write.
  pub record IsStored : Type 0 where
    pub metadata : Fields
    pub admission : IsAdmitted env settings authed inp metadata
    pub base : inp.base_version ≡ version_of (get_page inp.path w.db)
    pub version : out.version ≡ previous (get_page inp.path w.db) + 1
    pub page :
        get_page inp.path w'.db
        ≡ some (page_row (page_write env inp metadata) out.version out.global_version)
    pub inside : is_relative_to (resolve settings.wiki_dir inp.path) settings.wiki_dir ≡ true
    pub file : file_at (resolve settings.wiki_dir inp.path) w'.disk ≡ some inp.content

-- A write that is answered with a version was made by the caller that the token names for an app of
-- its own, to a path that the ownership rules leave it, with a content that passed validation and on
-- the version that the page had; the page then has the next version and that content, under the
-- caller's name, and the page file below the wiki directory holds the content.
pub handle_write-IsStored :
    (env : Env) (settings : Settings) (authed : Option AuthenticatedServer) (inp : WriteInput)
    (w : World) (out : WriteOutput)
    → (handle_write env settings authed inp w).0 ≡ ok out
    → IsStored env settings authed inp w (handle_write env settings authed inp w).1 out
unfolding handle_write
handle_write-IsStored env settings authed inp w out h =
    go (admit_write env settings authed inp) refl h
  where
    after :
        (m : Fields) (o : WriteOutcome)
        → admit_write env settings authed inp ≡ ok m
        → (write_page env.now (page_write env inp m) w.db).0 ≡ o
        → (after_write env settings inp w.disk
            (o, (write_page env.now (page_write env inp m) w.db).1)).0
          ≡ ok out
        → IsStored env settings authed inp w
            (after_write env settings inp w.disk
              (o, (write_page env.now (page_write env inp m) w.db).1)).1
            out
    after m (conflicted c) q p k = cc
    after m (written r) q p k =
        let a = page_write env inp m in
        let facts = get-write_page env.now a w.db r inp.path p in
        let kept =
          stored_file r (write_page env.now a w.db).1 w.disk env.disk_works settings.wiki_dir
            inp.path inp.content out k in
        record {
          metadata = m;
          admission = admitted env settings authed inp m q;
          base = (write_page_accepts env.now a w.db).0 (rw p refl);
          version = rw kept.0 facts.0;
          page = rw (kept.0, kept.1) (facts.2 ∙ rw (beq_refl inp.path) refl);
          inside = kept.2;
          file = kept.3;
        }

    go :
        (r : Result ToolError Fields)
        → admit_write env settings authed inp ≡ r
        → (write_admitted env settings inp w r).0 ≡ ok out
        → IsStored env settings authed inp w (write_admitted env settings inp w r).1 out
    go (err x) q k = cc
    go (ok m) q k =
        let outcome = write_page env.now (page_write env inp m) w.db in
        encoded_cases (λ x. x.0 ≡ ok out → IsStored env settings authed inp w x.1 out)
          (env.storable m) w outcome.0 (after_write env settings inp w.disk outcome)
          (after m outcome.0 q refl) (λ never. cc) k
