-- ===== src/Editing/Settled.antt =====
-- What one flush of an edit leaves on both sides.
use vaultmcp.Agent.Mirror.{write_at}
use vaultmcp.Prelude.{ℕ, true, Option, none, some, []}
use vaultmcp.Prelude.{◌≡◌, refl, sym, ap, ◌∙◌, ◌⊎◌, inl, inr}
use vaultmcp.Prelude.{nat_Eq, list_Eq, beq_refl, Text, Result, ok, err}
use vaultmcp.Shared.Value.{Fields}
use vaultmcp.Prelude.Texts.{universal_newlines}
use vaultmcp.Master.Tools.{encoded}
use vaultmcp.Shared.FilePath.{Parts, resolve, is_relative_to, read_text}
use vaultmcp.Master.Errors.{ToolError, conflict, render_failed, status}
use vaultmcp.Master.Auth.{AuthenticatedServer}
use vaultmcp.Master.Render.{Rendered, rendered, escapes, os_error, render_to_disk}
use vaultmcp.Master.Db.Rows.{Db, PageRow}
use vaultmcp.Master.Db.Pages.{WriteOutcome, WriteResult, written, conflicted, get_page, write_page}
use vaultmcp.Prelude.{subst, ◌≢◌, Option-cases}
use vaultmcp.Master.Db.Pages.{ConflictResult}
use vaultmcp.Master.Tools.{write_output}
use vaultmcp.Master.Db.Pages.Write.{
  write_page_accepts, is_written, conflict_of, version_of, write_page_conflict,
}
use vaultmcp.Master.Tools.{
  Env, World, Settings, WriteInput, WriteOutput, as_conflict, admit_write, page_write, after_write,
  after_render, write_admitted, handle_write,
}
use vaultmcp.Master.Tools.Write.{handle_write-IsStored}
use vaultmcp.Agent.Client.{ClientError, conflict_error, interpret}
use vaultmcp.Agent.Queue.{Session}
use vaultmcp.Agent.VersionCache.{get_version, get_version-set_version}
use vaultmcp.Agent.Mirror.{Agent, replace_local}
use vaultmcp.Agent.Sync.Mirrors.{read_again, read_text-write_at}
use vaultmcp.Agent.Watcher.{Moment, Written, after_send, send_or_queue}
use vaultmcp.Agent.Watcher.Flush.{Timers, relative_path, flush}
use vaultmcp.Editing.{write_request, master_answers}

-- What comes of an admitted write: a version, a conflict with the page as it is, or a page file that
-- could not be written.
abbrev Decided : WriteInput → World → Result ToolError WriteOutput × World → Type 0
Decided inp w r =
    ((out : WriteOutput) × (r.0 ≡ ok out))
    ⊎ (((r.0 ≡ err (conflict (as_conflict (conflict_of (get_page inp.path w.db)))))
          × (get_page inp.path r.1.db ≡ get_page inp.path w.db)
          × (inp.base_version ≢ version_of (get_page inp.path w.db)))
        ⊎ (r.0 ≡ err render_failed))

handle_write-Decided :
    (env : Env) (settings : Settings) (authed : Option AuthenticatedServer) (inp : WriteInput)
    (w : World) (m : Fields)
    → admit_write env settings authed inp ≡ ok m
    → env.storable m ≡ true
    → Decided inp w (handle_write env settings authed inp w)
unfolding handle_write write_admitted after_write page_write get_page
handle_write-Decided env settings authed inp w m adm kept =
    rw (adm, kept, encoded) (go (write_page env.now (page_write env inp m) w.db).0 refl)
  where
    shown : (r : WriteResult) (db : Db) (x : Rendered) → Decided inp w (after_render r db w.disk x)
    shown r db (rendered d) = inl (write_output r, refl)
    shown r db escapes = inr (inr refl)
    shown r db os_error = inr (inr refl)

    go :
        (o : WriteOutcome)
        → (write_page env.now (page_write env inp m) w.db).0 ≡ o
        → Decided inp w (
            after_write env settings inp w.disk
              (o, (write_page env.now (page_write env inp m) w.db).1))
    go (written r) q =
        shown r _ (render_to_disk env.disk_works settings.wiki_dir inp.path inp.content w.disk)
    go (conflicted c) q =
        let facts = write_page_conflict env.now (page_write env inp m) w.db c q in
        inr (
          inl (
            ap (λ (x : ConflictResult). err (conflict (as_conflict x))) facts.0,
            ap (get_page inp.path) facts.1.4,
            λ same.
                let accepted : is_written (conflicted c) ≡ true =
                  subst (λ (x : WriteOutcome). is_written x ≡ true) q
                    ((write_page_accepts env.now (page_write env inp m) w.db).1 same) in
                cc,
          ))

-- The agent's cache has the version of the master's page, and its file reads as the page does.
abbrev pub Agrees : Text → Parts → Db → Agent → Type 0
Agrees rel path db a =
    (p : PageRow) × (get_page rel db ≡ some p)
    × (get_version rel a.cache ≡ some p.version)
    × (read_text path a.files ≡ some (universal_newlines p.content))

-- The master has no page, and the agent's file was emptied.
abbrev pub IsEmptied : Text → Parts → Db → Agent → Type 0
IsEmptied rel path db a =
    (get_page rel db ≡ none)
    × (get_version rel a.cache ≡ some 0)
    × (read_text path a.files ≡ some [])

module _ (moment : Moment) (vault : Parts) (session : Session) (path : Parts) (a : Agent) where
  abbrev rel : Text
  rel = relative_path vault path

  accepted-Agrees :
      (content : Text) (r : Written) (p : PageRow) (db : Db)
      → read_text path a.files ≡ some content
      → get_page rel db ≡ some p
      → p.version ≡ r.version
      → p.content ≡ content
      → Agrees rel path db
          (after_send moment vault session rel content (get_version rel a.cache) (ok r) a)
  unfolding after_send
  accepted-Agrees content r p db here found v c = (
    p,
    found,
    get_version-set_version rel r.version r.global_version a.cache rel ∙ rw (beq_refl rel, v) refl,
    read_again path a.files content here ∙ ap (λ (t : Text). some (universal_newlines t)) (sym c),
  )

  -- `_replace_local` with what the conflict says of the page.
  replaced :
      (content text writer : Text) (version : ℕ)
      → is_relative_to path vault ≡ true
      → resolve vault rel ≡ path
      → moment.works ≡ true
      → let b =
          after_send moment vault session rel content
            (get_version rel a.cache)
            (err (conflict_error version text writer))
            a in
        (get_version rel b.cache ≡ some version)
        × (read_text path b.files ≡ some (universal_newlines text))
  unfolding after_send replace_local
  replaced content text writer version inside same works =
      rw (works, replace_local)
        (
          get_version-set_version rel version 0 _ rel ∙ rw (beq_refl rel) refl,
          subst
              (λ (q : Parts).
                read_text path (write_at moment.now vault q text a).files
                ≡ some (universal_newlines text))
              (sym same) (read_text-write_at moment.now vault path text a inside),
        )

flush_sends :
    (moment : Moment) (vault : Parts) (session : Session)
    (write : Text → Text → Option ℕ → Result ClientError Written) (path : Parts) (timers : Timers)
    (a : Agent) (content : Text)
    → read_text path a.files ≡ some content
    → is_relative_to path vault ≡ true
    → let rel = relative_path vault path in
      let base = get_version rel a.cache in
      (flush moment vault session write path timers a).1
      ≡ after_send moment vault session rel content base (write rel content base) a
unfolding flush send_or_queue
flush_sends moment vault session write path timers a content here inside =
    rw (here, inside, flush) refl

-- An edit of a file inside the vault that the master admits, whose front matter the database can store
-- and whose page file the master can write, is settled by one flush while the vault takes writes. Whether the write is accepted or
-- conflicts, the version in the agent's cache is that of the page on the master, and the file reads as
-- the page does up to universal newlines; or the master has no page, the file is empty, and the agent had
-- a version of the page. The file's path must be the one that its page is written to.
pub flush_settles :
    (env : Env) (settings : Settings) (authed : Option AuthenticatedServer) (w : World) (m : Fields)
    (moment : Moment) (vault : Parts) (session : Session) (path : Parts) (timers : Timers)
    (a : Agent) (content : Text)
    → let rel = relative_path vault path in
      let base = get_version rel a.cache in
      let inp = write_request session rel content base in
      let r = handle_write env settings authed inp w in
      read_text path a.files ≡ some content
      → is_relative_to path vault ≡ true
      → resolve vault rel ≡ path
      → admit_write env settings authed inp ≡ ok m
      → env.storable m ≡ true
      → r.0 ≢ err render_failed
      → moment.works ≡ true
      → let b =
          (flush moment vault session
            (master_answers env settings authed w session)
            path
            timers
            a).1 in
        Agrees rel path r.1.db b ⊎ (IsEmptied rel path r.1.db b × (base ≢ none))
unfolding interpret status page_write universal_newlines
flush_settles env settings authed w m moment vault session path timers a content here inside same
      adm kept works vault_works =
    let rel = relative_path vault path in
    let base = get_version rel a.cache in
    let inp = write_request session rel content base in
    let r = handle_write env settings authed inp w in
    let told = master_answers env settings authed w session in
    let sends = flush_sends moment vault session told path timers a content here inside in
    subst (λ (b : Agent). Agrees rel path r.1.db b ⊎ (IsEmptied rel path r.1.db b × (base ≢ none)))
      (sym sends)
      (elim (handle_write-Decided env settings authed inp w m adm kept) [
        | inl (out, q) ↦
            let s = handle_write-IsStored env settings authed inp w out q in
            inl (
              rw q (
                accepted-Agrees moment vault session path a content
                  (record { version = out.version; global_version = out.global_version }) _ r.1.db
                  here s.page refl refl))
        | inr (inl (q, same_page, stale)) ↦ elim (Option-cases (get_page rel w.db)) [
          | inl missing ↦
              let (v, f) =
                replaced moment vault session path a content [] [] 0 inside same vault_works in
              inr (
                rw (q, missing)
                  (
                    (same_page ∙ missing, v, f),
                    λ none_yet. stale (none_yet ∙ ap version_of (sym missing)),
                  ))
          | inr (p, found) ↦
              let (v, f) =
                replaced moment vault session path a content p.content p.last_writer_server
                  p.version inside same vault_works in
              inl (rw (q, found) (p, same_page ∙ found, v, f))
        ]
        | inr (inr q) ↦ absurd (works q)
      ])
