-- ===== src/Master/Cli/Ingest/Outcomes.antt =====
-- An import leaves the pages that are there, and those of other paths.
use vaultmcp.Prelude.{◌≡◌, refl, ap, ◌∙◌, inl, inr}
use vaultmcp.Prelude.{Bool, false, not, ◌&&◌, Option, none, some, List, [], ◌∷◌}
use vaultmcp.Prelude.{ltb, Bool-cases}
use vaultmcp.Prelude.{◌==◌, nat_Eq, list_Eq, option_Eq, list_eq_iff}
use vaultmcp.Prelude.{Result, ok, err, Result-cases}
use vaultmcp.Prelude.{Text}
use vaultmcp.Master.Errors.{ToolError}
use vaultmcp.Master.Db.Rows.{PageRow}
use vaultmcp.Master.Db.Pages.{get_page}
use vaultmcp.Master.Tools.{World, Settings, WriteOutput, handle_write}
use vaultmcp.Master.Tools.Locality.{get-handle_write_elsewhere}
use vaultmcp.Master.Server.{valid_arguments, wiki_write}
use vaultmcp.Master.Cli.Ingest.{
  SourceFile, IngestOptions, IngestReport, Abort, ingest_input, is_caught, after_write_try,
  write_source, import_source, ingest_existing, ingest_text, no_files, ingest_file, ingest_files,
  selected, rerender, finish_ingest, ingest,
}

pub world-after_write_try :
    (rel : Text) (r : IngestReport) (x : Result ToolError WriteOutput × World)
    → (after_write_try rel r x).1 ≡ x.1
unfolding after_write_try
world-after_write_try rel r (ok out, w) = refl
world-after_write_try rel r (err e, w) = elim (Bool-cases (is_caught e)) [
  | inl c ↦ rw c refl
  | inr c ↦ rw c refl
]

module _ (opts : IngestOptions) (settings : Settings) where
  module _ (f : SourceFile) (k : Text) (other : (f.rel == k) ≡ false) where
    import_source_elsewhere :
        (content : Text) (o : Option PageRow) (r : IngestReport) (w : World)
        → get_page k (import_source opts settings f content o r w).1.db ≡ get_page k w.db
    unfolding import_source write_source ingest_input
    import_source_elsewhere content o r w =
        let inp = ingest_input opts f.rel content o in
        elim (Bool-cases opts.dry_run) [
          | inl d ↦ rw d refl
          | inr d ↦ elim (Bool-cases (valid_arguments (wiki_write inp))) [
            | inl v ↦
                rw (d, v)
                  (ap (λ (x : World). get_page k x.db)
                      (world-after_write_try f.rel r (handle_write f.env settings none inp w))
                    ∙ get-handle_write_elsewhere f.env settings none inp w k other)
            | inr v ↦ rw (d, v) refl
          ]
        ]

    existing_elsewhere :
        (content : Text) (o : Option PageRow) (r : IngestReport) (w : World)
        → get_page k (ingest_existing opts settings f content o r w).1.db ≡ get_page k w.db
    unfolding ingest_existing
    existing_elsewhere content none r w = import_source_elsewhere content none r w
    existing_elsewhere content (some p) r w = elim (Bool-cases opts.overwrite) [
      | inl v ↦ rw v (import_source_elsewhere content (some p) r w)
      | inr v ↦ rw v refl
    ]

    text_elsewhere :
        (c : Option Text) (r : IngestReport) (w : World)
        → get_page k (ingest_text opts settings f c r w).1.db ≡ get_page k w.db
    unfolding ingest_text
    text_elsewhere none r w = refl
    text_elsewhere (some content) r w = existing_elsewhere content (get_page f.rel w.db) r w

    -- The turn of a file leaves the pages of all other paths.
    pub ingest_file_elsewhere :
        (r : IngestReport) (w : World)
        → get_page k (ingest_file opts settings f r w).1.db ≡ get_page k w.db
    unfolding ingest_file
    ingest_file_elsewhere r w = text_elsewhere f.content r w

  -- A page that is there keeps as it is at its own turn, unless `--overwrite` is given.
  module _ (keeps : opts.overwrite ≡ false) (k : Text) (p : PageRow) where
    kept_at_turn :
        (f : SourceFile) (c : Option Text) (r : IngestReport) (w : World)
        → get_page f.rel w.db ≡ some p
        → (ingest_text opts settings f c r w).1 ≡ w
    unfolding ingest_text ingest_existing
    kept_at_turn f none r w h = refl
    kept_at_turn f (some content) r w h = rw (h, keeps) refl

    ingest_file_keeps :
        (f : SourceFile) (r : IngestReport) (w : World)
        → get_page k w.db ≡ some p
        → get_page k (ingest_file opts settings f r w).1.db ≡ some p
    unfolding ingest_file
    ingest_file_keeps f r w h = elim (Bool-cases (f.rel == k)) [
      | inl e ↦
          ap (λ (x : World). get_page k x.db)
            (kept_at_turn f f.content r w
              (ap (λ q. get_page q w.db) ((list_eq_iff f.rel k).0 e) ∙ h))
          ∙ h
      | inr e ↦ ingest_file_elsewhere f k e r w ∙ h
    ]

    ingest_files_keeps :
        (fs : List SourceFile) (r : IngestReport) (w : World)
        → get_page k w.db ≡ some p
        → get_page k (ingest_files opts settings fs r w).1.db ≡ some p
    unfolding ingest_files
    ingest_files_keeps [] r w h = h
    ingest_files_keeps (f ∷ fs) r w h = elim (Result-cases (ingest_file opts settings f r w).0) [
      | inl (r', q) ↦
          rw (q, ingest_files)
            (ingest_files_keeps fs r' (ingest_file opts settings f r w).1
              (ingest_file_keeps f r w h))
      | inr (a, q) ↦ rw (q, ingest_files) (ingest_file_keeps f r w h)
    ]

pub db-finish_ingest :
    (works : Text → Bool) (opts : IngestOptions) (settings : Settings)
    (x : Result Abort IngestReport × World)
    → (finish_ingest works opts settings x).1.db ≡ x.1.db
unfolding finish_ingest rerender
db-finish_ingest works opts settings (err a, w) = refl
db-finish_ingest works opts settings (ok r, w) =
    elim (Bool-cases (not opts.dry_run && ltb 0 r.imported)) [
      | inl e ↦ rw e refl
      | inr e ↦ rw e refl
    ]

-- Without `--overwrite` an import, however it ends, leaves every page that is there as it is.
pub ingest_keeps :
    (works : Text → Bool) (opts : IngestOptions) (settings : Settings) (files : List SourceFile)
    (w : World) (k : Text) (p : PageRow)
    → opts.overwrite ≡ false
    → get_page k w.db ≡ some p
    → get_page k (ingest works opts settings files w).1.db ≡ some p
unfolding ingest
ingest_keeps works opts settings files w k p o h =
    ap (get_page k) (
      db-finish_ingest works opts settings
        (ingest_files opts settings (selected opts files) no_files w))
    ∙ ingest_files_keeps opts settings o k p (selected opts files) no_files w h
