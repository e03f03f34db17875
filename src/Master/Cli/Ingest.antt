-- ===== src/Master/Cli/Ingest.antt =====
-- The command `ingest`: the import of a tree of Markdown files.
pub mod Outcomes
pub mod Imports
pub mod Counts
use vaultmcp.Prelude.{ℕ, zero, suc, ◌+◌, ◌-◌, ◌*◌, ◌/◌, ◌%◌, ◌^◌, ◌≤◌, ◌<◌, min, max, String}
use vaultmcp.Prelude.{◌≡◌, refl, sym, ap, ◌∙◌, fun_ext, ◌≢◌, ◌↔◌, ◌⊎◌, inl, inr}
use vaultmcp.Prelude.{Bool, true, false, not, ◌&&◌, ◌||◌, Option, none, some, List, [], ◌∷◌, ◌++◌}
use vaultmcp.Prelude.{
  map, reverse, arith, ltb, leb, nat_eq, if◌then◌else◌, Bool-cases, Option-cases,
}
use vaultmcp.Prelude.{
  Eq, ◌==◌, nat_Eq, list_Eq, option_Eq, list_eq_iff, option_eq_iff, nat_eq_iff, beq_refl,
}
use vaultmcp.Prelude.{
  length, take, drop, last?, select, find, any, all, All, length-append, length-take,
}
use vaultmcp.Prelude.{
  take_all, place, sort_by, Result, ok, err, ◌>>=◌, ◌>>◌, guard, bind-ok, Result-cases,
}
use vaultmcp.Prelude.{
  Text, codes, starts_with, is_space, lstrip, rstrip, strip, partition, split, join, text_le,
}
use vaultmcp.Shared.FilePath.{Parts}
use vaultmcp.Shared.Frontmatter.{FrontmatterError, parse}
use vaultmcp.Master.Errors.{ToolError, validation_failed, size_limit_exceeded, invalid_arguments}
use vaultmcp.Master.Db.Rows.{Db, PageRow}
use vaultmcp.Master.Db.Pages.{get_page, given}
use vaultmcp.Master.Db.Walk.{iter_all_pages}
use vaultmcp.Master.Tools.{Env, World, Settings, Session, WriteInput, WriteOutput, handle_write}
use vaultmcp.Master.Server.{valid_arguments, wiki_write}
use vaultmcp.Master.Cli.RenderAll.{RenderCount, render_pages, batch_size, rounds}

-- A file in the order of `sorted(src_dir.rglob("*.md"))`: its path below the directory, the text that
-- is read from it, if it can be read as UTF-8, and what its write is given from outside.
pub record SourceFile : Type 0 where
  pub rel : Text
  pub content : Option Text
  pub env : Env

pub record IngestOptions : Type 0 where
  pub server_id : Text
  pub app_override : Option Text
  pub overwrite : Bool
  pub dry_run : Bool
  pub prefix : Option Text

-- A file that is listed as invalid, with the exception.
pub data Problem : Type 0 where
  unparsed : FrontmatterError → Problem
  refused : ToolError → Problem

pub record IngestReport : Type 0 where
  pub imported : ℕ
  pub skipped_existing : ℕ
  pub skipped_invalid : ℕ
  pub invalid : List (Text × Problem)

-- What ends the command with a traceback.
pub data Abort : Type 0 where
  unreadable : Text → Abort
  raised : ToolError → Abort

unfoldable pub app_of : List Text → Text
app_of [] = codes "shared"
app_of (p ∷ []) = if p == [] then codes "shared" else p
app_of (p ∷ q ∷ parts) = if p == codes "apps" then q else if p == [] then codes "shared" else p

unfoldable pub derive_app : Option Text → Text → Text
unfolding app_of
derive_app none rel = app_of (split b'/' rel)
derive_app (some []) rel = app_of (split b'/' rel)
derive_app (some (c ∷ s)) rel = c ∷ s

abbrev pub one_imported : IngestReport → IngestReport
one_imported r = record r { imported = suc r.imported }

abbrev pub one_existing : IngestReport → IngestReport
one_existing r = record r { skipped_existing = suc r.skipped_existing }

abbrev pub one_invalid : Text → Problem → IngestReport → IngestReport
one_invalid rel problem r = record r {
  skipped_invalid = suc r.skipped_invalid;
  invalid = r.invalid ++ (rel, problem) ∷ [];
}

unfoldable pub ingest_input : IngestOptions → Text → Text → Option PageRow → WriteInput
unfolding derive_app
ingest_input opts rel content existing = record {
  path = rel;
  content = content;
  base_version = elim existing [ none ↦ none | some p ↦ some p.version ];
  session = record {
    server_id = opts.server_id;
    app = derive_app opts.app_override rel;
    agent_model = codes "ingest";
    prompt_hash = none;
    session_id = [];
  };
}

abbrev pub ingest_settings : Parts → ℕ → Settings
ingest_settings wiki_dir max_bytes = record {
  wiki_dir = wiki_dir;
  max_bytes = max_bytes;
  ownership = none;
}

-- `except (ValidationFailed, SizeLimitExceeded)`
abbrev pub is_caught : ToolError → Bool
is_caught (validation_failed reason) = true
is_caught (size_limit_exceeded size limit) = true
is_caught _ = false

unfoldable pub after_write_try :
    Text → IngestReport → Result ToolError WriteOutput × World → Result Abort IngestReport × World
after_write_try rel r (ok out, w) = (ok (one_imported r), w)
after_write_try rel r (err e, w) =
    if is_caught e then (ok (one_invalid rel (refused e) r), w) else (err (raised e), w)

unfoldable pub write_source :
    IngestOptions
    → Settings
    → SourceFile
    → Text
    → Option PageRow
    → IngestReport
    → World
    → Result Abort IngestReport × World
unfolding ingest_input valid_arguments handle_write after_write_try
write_source opts settings f content existing r w =
    let inp = ingest_input opts f.rel content existing in
    if valid_arguments (wiki_write inp)
    then after_write_try f.rel r (handle_write f.env settings none inp w)
    else (err (raised invalid_arguments), w)

unfoldable pub dry_source : SourceFile → Text → IngestReport → IngestReport
unfolding parse
dry_source f content r = elim (parse f.env.codec content) [
  | ok parsed ↦ one_imported r
  | err e ↦ one_invalid f.rel (unparsed e) r
]

unfoldable pub import_source :
    IngestOptions
    → Settings
    → SourceFile
    → Text
    → Option PageRow
    → IngestReport
    → World
    → Result Abort IngestReport × World
unfolding write_source dry_source
import_source opts settings f content existing r w =
    if opts.dry_run
    then (ok (dry_source f content r), w)
    else write_source opts settings f content existing r w

-- The body of the loop once the page of that path has been looked up.
unfoldable pub ingest_existing :
    IngestOptions
    → Settings
    → SourceFile
    → Text
    → Option PageRow
    → IngestReport
    → World
    → Result Abort IngestReport × World
unfolding import_source
ingest_existing opts settings f content none r w = import_source opts settings f content none r w
ingest_existing opts settings f content (some p) r w =
    if opts.overwrite
    then import_source opts settings f content (some p) r w
    else (ok (one_existing r), w)

unfoldable pub ingest_text :
    IngestOptions
    → Settings
    → SourceFile
    → Option Text
    → IngestReport
    → World
    → Result Abort IngestReport × World
unfolding get_page ingest_existing
ingest_text opts settings f none r w = (err (unreadable f.rel), w)
ingest_text opts settings f (some content) r w =
    ingest_existing opts settings f content (get_page f.rel w.db) r w

unfoldable pub ingest_file :
    IngestOptions → Settings → SourceFile → IngestReport → World → Result Abort IngestReport × World
unfolding ingest_text
ingest_file opts settings f r w = ingest_text opts settings f f.content r w

-- The files that are left are read only if the one before them has not ended the command.
unfoldable pub ingest_files :
    IngestOptions
    → Settings
    → List SourceFile
    → IngestReport
    → World
    → Result Abort IngestReport × World
unfolding ingest_file
ingest_files opts settings [] r w = (ok r, w)
ingest_files opts settings (f ∷ fs) r w =
    let (answer, w') = ingest_file opts settings f r w in
    elim answer [ err a ↦ (err a, w') | ok r' ↦ ingest_files opts settings fs r' w' ]

abbrev pub no_files : IngestReport
no_files = record { imported = 0; skipped_existing = 0; skipped_invalid = 0; invalid = [] }

abbrev pub selected : IngestOptions → List SourceFile → List SourceFile
selected opts files = select (λ f. given opts.prefix (λ p. starts_with f.rel p)) files

-- The list of problems at the end: at most thirty, each cut to 100 characters, and how many more.
unfoldable pub short_reason : Text → Text
short_reason reason = if leb (length reason) 100 then reason else take 97 reason ++ codes "..."

unfoldable pub problem_lines : (Problem → Text) → IngestReport → List (Text × Text) × ℕ
unfolding short_reason
problem_lines message r = (
  map (λ (rel, problem). (rel, short_reason (message problem))) (take 30 r.invalid),
  length r.invalid - 30,
)

-- The second rendering of every page, whose failures are passed over.
unfoldable pub rerender : (Text → Bool) → Settings → World → World
unfolding iter_all_pages render_pages
rerender works settings w = record w {
  disk =
      (render_pages works settings.wiki_dir (iter_all_pages (rounds w.db) none batch_size none w.db)
        (record { rendered = 0; failed = 0 }) w.disk).1;
}

unfoldable pub finish_ingest :
    (Text → Bool)
    → IngestOptions
    → Settings
    → Result Abort IngestReport × World
    → Result Abort IngestReport × World
unfolding rerender
finish_ingest works opts settings (err a, w) = (err a, w)
finish_ingest works opts settings (ok r, w) =
    (ok r, if not opts.dry_run && ltb 0 r.imported then rerender works settings w else w)

unfoldable pub ingest :
    (Text → Bool)
    → IngestOptions
    → Settings
    → List SourceFile
    → World
    → Result Abort IngestReport × World
unfolding ingest_files finish_ingest
ingest works opts settings files w =
    finish_ingest works opts settings (ingest_files opts settings (selected opts files) no_files w)
