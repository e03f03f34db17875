-- ===== src/Master/Tools/Locality.antt =====
-- `handle_write` and the pages under other paths; and the write that nothing keeps from its page.
use vaultmcp.Prelude.{true, false}
use vaultmcp.Master.Tools.{WriteOutput}
use vaultmcp.Master.Errors.{ToolError}
use vaultmcp.Prelude.{◌≡◌, refl, ap, ◌∙◌}
use vaultmcp.Prelude.{true, false, Option, none, some}
use vaultmcp.Prelude.{◌==◌, nat_Eq, list_Eq, option_Eq, beq_refl}
use vaultmcp.Prelude.{Result, ok, err}
use vaultmcp.Prelude.{Text}
use vaultmcp.Shared.Value.{Fields}
use vaultmcp.Shared.FilePath.{Disk}
use vaultmcp.Master.Errors.{internal}
use vaultmcp.Master.Errors.{ToolError}
use vaultmcp.Master.Auth.{AuthenticatedServer}
use vaultmcp.Master.Render.{Rendered, rendered, escapes, os_error}
use vaultmcp.Master.Db.Rows.{Db, PageRow}
use vaultmcp.Master.Db.Pages.{
  WriteOutcome, WriteResult, written, conflicted, get_page, write_page, page_row,
}
use vaultmcp.Master.Db.Pages.Write.{
  get-write_page, get-write_page_elsewhere, write_page_accepts, version_of, is_written,
}
use vaultmcp.Master.Tools.Write.{encoded_cases}
use vaultmcp.Master.Tools.{
  Env, World, Settings, WriteInput, page_write, admit_write, after_write, after_render,
  write_admitted, handle_write, encoded,
}

db-after_render :
    (r : WriteResult) (db : Db) (disk : Disk) (x : Rendered) → (after_render r db disk x).1.db ≡ db
unfolding after_render
db-after_render r db disk (rendered d) = refl
db-after_render r db disk escapes = refl
db-after_render r db disk os_error = refl

db-after_write :
    (env : Env) (settings : Settings) (inp : WriteInput) (disk : Disk) (o : WriteOutcome) (db : Db)
    → (after_write env settings inp disk (o, db)).1.db ≡ db
unfolding after_write
db-after_write env settings inp disk (conflicted c) db = refl
db-after_write env settings inp disk (written r) db = db-after_render r db disk _

-- Whatever comes of a write, the pages under other paths stay as they are.
pub get-handle_write_elsewhere :
    (env : Env) (settings : Settings) (authed : Option AuthenticatedServer) (inp : WriteInput)
    (w : World) (k : Text)
    → (inp.path == k) ≡ false
    → get_page k (handle_write env settings authed inp w).1.db ≡ get_page k w.db
unfolding handle_write write_admitted page_write
get-handle_write_elsewhere env settings authed inp w k n = go (admit_write env settings authed inp)
  where
    go :
        (m : Result ToolError Fields)
        → get_page k (write_admitted env settings inp w m).1.db ≡ get_page k w.db
    go (err e) = refl
    go (ok m) =
        let a = page_write env inp m in
        let outcome = write_page env.now a w.db in
        encoded_cases (λ x. get_page k x.1.db ≡ get_page k w.db) (env.storable m) w outcome.0
          (after_write env settings inp w.disk outcome)
          (ap (get_page k) (db-after_write env settings inp w.disk outcome.0 outcome.1)
            ∙ get-write_page_elsewhere env.now a w.db k n)
          refl

-- A write that is admitted and names the version of the page, if it is answered with a version or the
-- rendering alone fails, has stored the content under the session's server.
pub stored_if_admitted :
    (env : Env) (settings : Settings) (inp : WriteInput) (m : Fields) (w : World)
    → admit_write env settings none inp ≡ ok m
    → env.storable m ≡ true
    → inp.base_version ≡ version_of (get_page inp.path w.db)
    → (p : PageRow) × (get_page inp.path (handle_write env settings none inp w).1.db ≡ some p)
      × (p.content ≡ inp.content)
      × (p.last_writer_server ≡ inp.session.server_id)
unfolding handle_write write_admitted page_write
stored_if_admitted env settings inp m w adm kept base =
    rw (adm, kept, encoded)
      (let a = page_write env inp m in
        let out =
          written_of (write_page env.now a w.db).0 ((write_page_accepts env.now a w.db).1 base) in
        let r = out.0 in
        (
          page_row a r.version r.global_version,
          ap (get_page inp.path) (
                db-after_write env settings inp w.disk (write_page env.now a w.db).0
                  (write_page env.now a w.db).1)
              ∙ (get-write_page env.now a w.db r inp.path out.1).2
              ∙ rw (beq_refl inp.path) refl,
          refl,
          refl,
        ))
  where
    written_of : (o : WriteOutcome) → is_written o ≡ true → (r : WriteResult) × (o ≡ written r)
    written_of (written r) h = (r, refl)
    written_of (conflicted c) h = cc

-- Such a write raises if the encoder refuses its metadata.
pub raised_unless_storable :
    (env : Env) (settings : Settings) (inp : WriteInput) (m : Fields) (w : World)
    → admit_write env settings none inp ≡ ok m
    → env.storable m ≡ false
    → inp.base_version ≡ version_of (get_page inp.path w.db)
    → (handle_write env settings none inp w).0 ≡ err internal
unfolding handle_write write_admitted page_write encoded
raised_unless_storable env settings inp m w adm refused base =
    rw (adm, refused)
      (go (write_page env.now (page_write env inp m) w.db).0
        ((write_page_accepts env.now (page_write env inp m) w.db).1 base)
        (after_write env settings inp w.disk (write_page env.now (page_write env inp m) w.db)))
  where
    go :
        (o : WriteOutcome)
        → is_written o ≡ true
        → (answer : Result ToolError WriteOutput × World)
        → (encoded false w o answer).0 ≡ err internal
    go (written r) h answer = refl
    go (conflicted c) h answer = cc
