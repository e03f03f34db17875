-- ===== src/Master/Cli/Ingest/Imports.antt =====
-- What an import that comes to its end has stored.
use vaultmcp.Prelude.{subst}
use vaultmcp.Master.Tools.Locality.{raised_unless_storable}
use vaultmcp.Master.Errors.{ToolError, internal}
use vaultmcp.Master.Tools.{WriteOutput}
use vaultmcp.Prelude.{Result, err}
use vaultmcp.Master.Cli.Ingest.{after_write_try}
use vaultmcp.Prelude.{◌≡◌, refl, sym, ap, ◌∙◌, ◌⊎◌, inl, inr}
use vaultmcp.Prelude.{Bool, true, false, Option, none, some, List, [], ◌∷◌, ◌++◌}
use vaultmcp.Prelude.{arith, Bool-cases}
use vaultmcp.Prelude.{◌==◌, nat_Eq, list_Eq, option_Eq}
use vaultmcp.Prelude.{All}
use vaultmcp.Prelude.{Result, ok, err, Result-cases}
use vaultmcp.Prelude.{Text}
use vaultmcp.Shared.Value.{Fields}
use vaultmcp.Master.Db.Rows.{PageRow}
use vaultmcp.Master.Db.Pages.{get_page}
use vaultmcp.Master.Tools.{World, Settings, admit_write, handle_write}
use vaultmcp.Master.Tools.Locality.{stored_if_admitted}
use vaultmcp.Master.Server.{valid_arguments, wiki_write}
use vaultmcp.Master.Cli.Ingest.{
  SourceFile, IngestOptions, IngestReport, Abort, ingest_input, write_source, import_source,
  ingest_existing, ingest_text, no_files, ingest_file, ingest_files, selected, finish_ingest,
  ingest,
}
use vaultmcp.Master.Db.Pages.Write.{version_of}
use vaultmcp.Master.Cli.Ingest.Outcomes.{
  world-after_write_try, ingest_file_elsewhere, db-finish_ingest,
}

-- The page of the path is there with the content.
abbrev pub Stored : Text → Text → World → Type 0
Stored k content w = (p : PageRow) × (get_page k w.db ≡ some p) × (p.content ≡ content)

module _ (opts : IngestOptions) (settings : Settings) where
  abbrev Apart : Text → SourceFile → Type 0
  Apart k g = (g.rel == k) ≡ false

  files_elsewhere :
      (k : Text) (fs : List SourceFile) (r : IngestReport) (w : World)
      → All (Apart k) fs
      → get_page k (ingest_files opts settings fs r w).1.db ≡ get_page k w.db
  unfolding ingest_files
  files_elsewhere k [] r w h = refl
  files_elsewhere k (f ∷ fs) r w h = elim (Result-cases (ingest_file opts settings f r w).0) [
    | inl (s, q) ↦
        rw (q, ingest_files)
          (files_elsewhere k fs s (ingest_file opts settings f r w).1 h.1
            ∙ ingest_file_elsewhere opts settings f k h.0 r w)
    | inr (a, q) ↦ rw (q, ingest_files) (ingest_file_elsewhere opts settings f k h.0 r w)
  ]

  module _ (real : opts.dry_run ≡ false) (f : SourceFile) (content : Text) (m : Fields)
      (admitted : admit_write f.env settings none (ingest_input opts f.rel content none)
        ≡ ok m) where
    aborted :
        (r r' : IngestReport) (x : Result ToolError WriteOutput × World)
        → x.0 ≡ err internal
        → (after_write_try f.rel r x).0 ≡ ok r'
        → ⊥
    unfolding after_write_try
    aborted r r' (x, w) q h =
        let never : (after_write_try f.rel r (err internal, w)).0 ≡ ok r' =
          subst (λ (y : Result ToolError WriteOutput). (after_write_try f.rel r (y, w)).0 ≡ ok r') q
            h in
        cc

    import_stores :
        (o : Option PageRow) (r r' : IngestReport) (w : World)
        → get_page f.rel w.db ≡ o
        → (import_source opts settings f content o r w).0 ≡ ok r'
        → Stored f.rel content (import_source opts settings f content o r w).1
    unfolding import_source write_source ingest_input
    import_stores o r r' w e h =
        let inp = ingest_input opts f.rel content o in
        elim (Bool-cases (valid_arguments (wiki_write inp))) [
          | inl v ↦ elim (Bool-cases (f.env.storable m)) [
            | inl kept ↦
                let done =
                  stored_if_admitted f.env settings inp m w admitted kept (ap version_of (sym e)) in
                rw (real, v)
                  (
                    done.0,
                    ap (λ (x : World). get_page f.rel x.db)
                          (world-after_write_try f.rel r (handle_write f.env settings none inp w))
                        ∙ done.1,
                    done.2,
                  )
            | inr refused ↦
                let raised_one =
                  raised_unless_storable f.env settings inp m w admitted refused
                    (ap version_of (sym e)) in
                absurd (
                  aborted r r' (handle_write f.env settings none inp w) raised_one
                    (rw (real, v) at h))
          ]
          | inr v ↦ absurd (ground (arith, h, real, v))
        ]

    existing_stores :
        (o : Option PageRow) (r r' : IngestReport) (w : World)
        → get_page f.rel w.db ≡ o
        → (o ≡ none) ⊎ (opts.overwrite ≡ true)
        → (ingest_existing opts settings f content o r w).0 ≡ ok r'
        → Stored f.rel content (ingest_existing opts settings f content o r w).1
    unfolding ingest_existing
    existing_stores none r r' w e wanted h = import_stores none r r' w e h
    existing_stores (some p) r r' w e (inl gone) h = cc
    existing_stores (some p) r r' w e (inr over) h =
        rw over (import_stores (some p) r r' w e (ground (arith, h, over)))

    module _ (text : f.content ≡ some content) (after : List SourceFile)
        (later_apart : All (Apart f.rel) after) where
      turn_stores :
          (r r' : IngestReport) (w : World)
          → (get_page f.rel w.db ≡ none) ⊎ (opts.overwrite ≡ true)
          → (ingest_file opts settings f r w).0 ≡ ok r'
          → Stored f.rel content (ingest_file opts settings f r w).1
      unfolding ingest_file ingest_text
      turn_stores r r' w wanted h = rw text (
          existing_stores (get_page f.rel w.db) r r' w refl wanted
            (ap (λ (c : Option Text). (ingest_text opts settings f c r w).0) (sym text) ∙ h))

      rest_stores :
          (r r' : IngestReport) (w : World)
          → (get_page f.rel w.db ≡ none) ⊎ (opts.overwrite ≡ true)
          → (ingest_files opts settings (f ∷ after) r w).0 ≡ ok r'
          → Stored f.rel content (ingest_files opts settings (f ∷ after) r w).1
      unfolding ingest_files
      rest_stores r r' w wanted h = elim (Result-cases (ingest_file opts settings f r w).0) [
        | inl (s, q) ↦
            let turn = turn_stores r s w wanted q in
            rw (q, ingest_files)
              (
                turn.0,
                files_elsewhere f.rel after s (ingest_file opts settings f r w).1 later_apart
                    ∙ turn.1,
                turn.2,
              )
        | inr (a, q) ↦ absurd (ground (arith, h, q))
      ]

      files_store :
          (before : List SourceFile) (r r' : IngestReport) (w : World)
          → All (Apart f.rel) before
          → (get_page f.rel w.db ≡ none) ⊎ (opts.overwrite ≡ true)
          → (ingest_files opts settings (before ++ f ∷ after) r w).0 ≡ ok r'
          → Stored f.rel content (ingest_files opts settings (before ++ f ∷ after) r w).1
      unfolding ingest_files
      files_store [] r r' w apart wanted h = rest_stores r r' w wanted h
      files_store (g ∷ before) r r' w apart wanted h =
          elim (Result-cases (ingest_file opts settings g r w).0) [
            | inl (s, q) ↦
                let same = ingest_file_elsewhere opts settings g f.rel apart.0 r w in
                rw (q, ingest_files)
                  (files_store before s r' (ingest_file opts settings g r w).1 apart.1
                    (ground (arith, wanted, same)) (ground (arith, h, q)))
            | inr (a, q) ↦ absurd (ground (arith, h, q))
          ]

-- When an import that is no dry run comes to its end, each selected file that is the only one of its
-- path, was readable, passes the checks of a write, and whose page was not there or is to be
-- overwritten, stands in the table with its content.
pub ingest_stores :
    (works : Text → Bool) (opts : IngestOptions) (settings : Settings) (files : List SourceFile)
    (w : World) (r : IngestReport) (before after : List SourceFile) (f : SourceFile)
    (content : Text) (m : Fields)
    → opts.dry_run ≡ false
    → (ingest works opts settings files w).0 ≡ ok r
    → selected opts files ≡ before ++ f ∷ after
    → All (λ g. (g.rel == f.rel) ≡ false) before
    → All (λ g. (g.rel == f.rel) ≡ false) after
    → f.content ≡ some content
    → admit_write f.env settings none (ingest_input opts f.rel content none) ≡ ok m
    → (get_page f.rel w.db ≡ none) ⊎ (opts.overwrite ≡ true)
    → Stored f.rel content (ingest works opts settings files w).1
unfolding ingest finish_ingest
ingest_stores works opts settings files w r before after f content m real h e b a text adm wanted =
    let ended = finished (ingest_files opts settings (selected opts files) no_files w) h in
    let done =
      files_store opts settings real f content m adm text after a before no_files ended.0 w b wanted
        (ap (λ fs. (ingest_files opts settings fs no_files w).0) (sym e) ∙ ended.1) in
    (
      done.0,
      ap (get_page f.rel) (
            db-finish_ingest works opts settings
              (ingest_files opts settings (selected opts files) no_files w))
          ∙ ap (λ fs. get_page f.rel (ingest_files opts settings fs no_files w).1.db) e
          ∙ done.1,
      done.2,
    )
  where
    finished :
        (x : Result Abort IngestReport × World)
        → (finish_ingest works opts settings x).0 ≡ ok r
        → (r' : IngestReport) × (x.0 ≡ ok r')
    finished (ok r', w') q = (r', refl)
    finished (err a', w') q = cc
