-- ===== src/Master/Cli/Ingest/Counts.antt =====
-- What a finished import has done: each file counted, and the admitted files stored.
use vaultmcp.Prelude.{ℕ, suc, ◌+◌}
use vaultmcp.Prelude.{◌≡◌, inl, inr}
use vaultmcp.Prelude.{Bool, Option, none, some, List, [], ◌∷◌}
use vaultmcp.Prelude.{arith, Bool-cases}
use vaultmcp.Prelude.{nat_Eq, list_Eq, option_Eq}
use vaultmcp.Prelude.{length, length-append}
use vaultmcp.Prelude.{Result, ok, err, Result-cases}
use vaultmcp.Prelude.{Text}
use vaultmcp.Shared.Frontmatter.{parse}
use vaultmcp.Master.Errors.{ToolError}
use vaultmcp.Master.Db.Rows.{PageRow}
use vaultmcp.Master.Db.Pages.{get_page}
use vaultmcp.Master.Tools.{World, Settings, WriteOutput, handle_write}
use vaultmcp.Master.Server.{valid_arguments, wiki_write}
use vaultmcp.Master.Cli.Ingest.{
  SourceFile, IngestOptions, IngestReport, Problem, Abort, refused, unparsed, one_invalid,
  ingest_input, is_caught, after_write_try, write_source, dry_source, import_source,
  ingest_existing, ingest_text, no_files, ingest_file, ingest_files, selected, finish_ingest,
  ingest,
}

abbrev pub files_counted : IngestReport → ℕ
files_counted r = r.imported + r.skipped_existing + r.skipped_invalid

-- One more file has been counted, and listed if it is invalid.
abbrev OneMore : IngestReport → IngestReport → Type 0
OneMore r r' =
    (files_counted r' ≡ suc (files_counted r))
    × (r'.skipped_invalid + length r.invalid ≡ r.skipped_invalid + length r'.invalid)

abbrev Counted : IngestReport → Result Abort IngestReport → Type 0
Counted r (ok r') = OneMore r r'
Counted r (err a) = Unit

one_invalid-OneMore :
    (rel : Text) (problem : Problem) (r : IngestReport) → OneMore r (one_invalid rel problem r)
one_invalid-OneMore rel problem r =
    (omega arith, omega (arith, length-append r.invalid ((rel, problem) ∷ [])))

write_try-Counted :
    (rel : Text) (r : IngestReport) (x : Result ToolError WriteOutput × World)
    → Counted r (after_write_try rel r x).0
unfolding after_write_try
write_try-Counted rel r (ok out, w) = (omega arith, omega arith)
write_try-Counted rel r (err e, w) = elim (Bool-cases (is_caught e)) [
  | inl c ↦ rw c (one_invalid-OneMore rel (refused e) r)
  | inr c ↦ rw c tt
]

dry-OneMore :
    (f : SourceFile) (content : Text) (r : IngestReport) → OneMore r (dry_source f content r)
unfolding dry_source
dry-OneMore f content r = elim (Result-cases (parse f.env.codec content)) [
  | inl (a, q) ↦ rw (q, dry_source) (omega arith, omega arith)
  | inr (e, q) ↦ rw (q, dry_source) (one_invalid-OneMore f.rel (unparsed e) r)
]

module _ (opts : IngestOptions) (settings : Settings) (f : SourceFile) where
  import-Counted :
      (content : Text) (o : Option PageRow) (r : IngestReport) (w : World)
      → Counted r (import_source opts settings f content o r w).0
  unfolding import_source write_source
  import-Counted content o r w =
      let inp = ingest_input opts f.rel content o in
      elim (Bool-cases opts.dry_run) [
        | inl d ↦ rw d (dry-OneMore f content r)
        | inr d ↦ elim (Bool-cases (valid_arguments (wiki_write inp))) [
          | inl v ↦ rw (d, v) (write_try-Counted f.rel r (handle_write f.env settings none inp w))
          | inr v ↦ rw (d, v) tt
        ]
      ]

  existing-Counted :
      (content : Text) (o : Option PageRow) (r : IngestReport) (w : World)
      → Counted r (ingest_existing opts settings f content o r w).0
  unfolding ingest_existing
  existing-Counted content none r w = import-Counted content none r w
  existing-Counted content (some p) r w = elim (Bool-cases opts.overwrite) [
    | inl v ↦ rw v (import-Counted content (some p) r w)
    | inr v ↦ rw v (omega arith, omega arith)
  ]

  file-Counted :
      (c : Option Text) (r : IngestReport) (w : World)
      → Counted r (ingest_text opts settings f c r w).0
  unfolding ingest_text
  file-Counted none r w = tt
  file-Counted (some content) r w = existing-Counted content (get_page f.rel w.db) r w

-- As many more as there are files.
abbrev AllCounted : ℕ → IngestReport → Result Abort IngestReport → Type 0
AllCounted n r (ok r') =
    (files_counted r' ≡ files_counted r + n)
    × (r'.skipped_invalid + length r.invalid ≡ r.skipped_invalid + length r'.invalid)
AllCounted n r (err a) = Unit

one_then_rest :
    (n : ℕ) (r s : IngestReport) (x : Result Abort IngestReport)
    → OneMore r s
    → AllCounted n s x
    → AllCounted (suc n) r x
one_then_rest n r s (ok r') one rest = (omega (arith, one, rest), omega (arith, one, rest))
one_then_rest n r s (err a) one rest = tt

files-AllCounted :
    (opts : IngestOptions) (settings : Settings) (fs : List SourceFile) (r : IngestReport)
    (w : World)
    → AllCounted (length fs) r (ingest_files opts settings fs r w).0
unfolding ingest_files ingest_file
files-AllCounted opts settings [] r w = (omega arith, omega arith)
files-AllCounted opts settings (f ∷ fs) r w =
    go (ingest_text opts settings f f.content r w).0 (file-Counted opts settings f f.content r w)
      (λ s. files-AllCounted opts settings fs s (ingest_text opts settings f f.content r w).1)
  where
    w' : World
    w' = (ingest_text opts settings f f.content r w).1

    go :
        (x : Result Abort IngestReport)
        → Counted r x
        → ((s : IngestReport) → AllCounted (length fs) s (ingest_files opts settings fs s w').0)
        → AllCounted
            (suc (length fs))
            r
            (elim x as (λ _. Result Abort IngestReport × World) [
              | err a ↦ (err a, w')
              | ok s ↦ ingest_files opts settings fs s w'
            ]).0
    go (ok s) c rest = one_then_rest (length fs) r s _ c (rest s)
    go (err a) c rest = tt

-- An import that comes to its end has put each selected file under exactly one of the three counts,
-- and lists as many files with their problems as it counts as invalid.
pub ingest_counts :
    (works : Text → Bool) (opts : IngestOptions) (settings : Settings) (files : List SourceFile)
    (w : World) (r : IngestReport)
    → (ingest works opts settings files w).0 ≡ ok r
    → (r.imported + r.skipped_existing + r.skipped_invalid ≡ length (selected opts files))
      × (length r.invalid ≡ r.skipped_invalid)
unfolding ingest finish_ingest
ingest_counts works opts settings files w r h =
    go (ingest_files opts settings (selected opts files) no_files w)
      (files-AllCounted opts settings (selected opts files) no_files w) h
  where
    go :
        (x : Result Abort IngestReport × World)
        → AllCounted (length (selected opts files)) no_files x.0
        → (finish_ingest works opts settings x).0 ≡ ok r
        → (r.imported + r.skipped_existing + r.skipped_invalid ≡ length (selected opts files))
          × (length r.invalid ≡ r.skipped_invalid)
    go (ok s, w') c e = ground (arith, c, e)
    go (err a, w') c e = cc
