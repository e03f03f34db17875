-- ===== src/Agent/Sync/Mirrors.antt =====
-- What a handled event leaves in the mirror, the version cache and the suppressor.
use vaultmcp.Prelude.{ℕ, ◌≤◌, max}
use vaultmcp.Prelude.{◌≡◌, refl, ap, ◌∙◌, inl, inr}
use vaultmcp.Prelude.{Bool, if◌then◌else◌, true, false, Option, none, some, List, [], ◌∷◌}
use vaultmcp.Prelude.{arith, Bool-cases}
use vaultmcp.Prelude.{◌==◌, nat_Eq, list_Eq, option_Eq, list_eq_iff, beq_refl}
use vaultmcp.Prelude.{Result, ok, err}
use vaultmcp.Prelude.{Text, codes}
use vaultmcp.Shared.FilePath.{
  Parts, Disk, is_relative_to, file_at, read_text, replace_file, file_at-replace_file,
}
use vaultmcp.Prelude.Texts.{universal_newlines}
use vaultmcp.Prelude.Texts.Newlines.{universal_newlines-universal_newlines}
use vaultmcp.Prelude.{sym, Option-cases}
use vaultmcp.Agent.Client.{ClientError}
use vaultmcp.Agent.VersionCache.{get_version, get_cursor}
use vaultmcp.Agent.Mirror.{Agent, is_due, holds, write_at, write_to_mirror}
use vaultmcp.Agent.Sync.{
  Page, Arrival, apply_event, apply_events, apply_page, advance_cursor, fetched, page_changed,
}

holds_content : (o : Option Text) (content : Text) → holds o content ≡ true → o ≡ some content
holds_content none content h = cc
holds_content (some t) content h = ap some ((list_eq_iff t content).0 h)

read_text-file_at :
    (p : Parts) (d : Disk) (t : Text)
    → file_at p d ≡ some t
    → read_text p d ≡ some (universal_newlines t)
unfolding read_text
read_text-file_at p d t h = rw (h, read_text) refl

-- What is read was read with universal newlines, so it is the same read again.
pub read_again :
    (p : Parts) (d : Disk) (t : Text)
    → read_text p d ≡ some t
    → read_text p d ≡ some (universal_newlines t)
unfolding read_text
read_again p d t h = elim (Option-cases (file_at p d)) [
  | inl q ↦ absurd (ground (arith, h, q))
  | inr (s, q) ↦
      let same : universal_newlines s ≡ t = ground (arith, h, q) in
      rw (q, read_text)
        (ap some (sym (universal_newlines-universal_newlines s) ∙ ap universal_newlines same))
]

-- After a page is written below the vault, its file reads as the content does.
pub read_text-write_at :
    (now : ℕ) (vault target : Parts) (content : Text) (a : Agent)
    → is_relative_to target vault ≡ true
    → read_text target (write_at now vault target content a).files
      ≡ some (universal_newlines content)
unfolding write_at is_due
read_text-write_at now vault target content a inside =
    elim (Bool-cases (holds (read_text target a.files) content)) [
      | inl e ↦
          rw (inside, e)
            (read_again target a.files content (holds_content (read_text target a.files) content e))
      | inr e ↦
          rw (inside, e)
            (read_text-file_at target (replace_file target content a.files) content
              (file_at-replace_file target target content a.files ∙ rw (beq_refl target) refl))
    ]

cache-write_to_mirror :
    (works : Bool) (now : ℕ) (vault : Parts) (path content : Text) (a : Agent)
    → (write_to_mirror works now vault path content a).1.cache ≡ a.cache
unfolding write_to_mirror write_at
cache-write_to_mirror works now vault path content a = ground arith

cursor-advance_cursor :
    (gv : ℕ) (a : Agent) → get_cursor (advance_cursor gv a).cache ≡ max gv (get_cursor a.cache)
unfolding advance_cursor get_cursor
cursor-advance_cursor gv a = ground arith

cursor-apply_page :
    (works : Bool) (now : ℕ) (vault : Parts) (path : Text) (page : Page) (a : Agent)
    → get_cursor (apply_page works now vault path page a).1.cache ≡ get_cursor a.cache
unfolding apply_page get_cursor
cursor-apply_page works now vault path page a =
    ground (arith, cache-write_to_mirror works now vault path page.content a)

moved_on :
    (done : Bool) (gv : ℕ) (b : Agent)
    → get_cursor b.cache ≤ get_cursor (if done then advance_cursor gv b else b).cache
moved_on true gv b = omega (arith, cursor-advance_cursor gv b)
moved_on false gv b = omega arith

cursor-fetched :
    (x : Arrival) (vault : Parts) (path : Text) (gv : ℕ) (r : Result ClientError Page) (a : Agent)
    → get_cursor a.cache ≤ get_cursor (fetched x.works x.now vault path gv r a).cache
cursor-fetched x vault path gv (err e) a = omega arith
cursor-fetched x vault path gv (ok page) a =
    let (done, b) = apply_page x.works x.now vault path page a in
    omega (arith, moved_on done gv b, cursor-apply_page x.works x.now vault path page a)

cursor-page_changed :
    (x : Arrival) (vault : Parts) (path : Option Text) (gv : ℕ) (a : Agent)
    → get_cursor a.cache ≤ get_cursor (page_changed x.works x.now vault path gv x.read a).cache
cursor-page_changed x vault none gv a = omega arith
cursor-page_changed x vault (some []) gv a = omega arith
cursor-page_changed x vault (some (c ∷ s)) gv a =
    cursor-fetched x vault (c ∷ s) gv (x.read (c ∷ s)) a

cursor-apply_event :
    (x : Arrival) (vault : Parts) (a : Agent)
    → get_cursor a.cache ≤ get_cursor (apply_event x.works x.now vault x.read x.event a).cache
unfolding apply_event
cursor-apply_event x vault a =
    elim (Bool-cases (x.event.event_type == some (codes "PageChanged"))) [
      | inl e ↦ rw e (cursor-page_changed x vault x.event.path x.event.global_version a)
      | inr e ↦ rw e (omega (arith, cursor-advance_cursor x.event.global_version a))
    ]

version-advance_cursor :
    (gv : ℕ) (path : Text) (a : Agent)
    → get_version path (advance_cursor gv a).cache ≡ get_version path a.cache
unfolding advance_cursor get_version
version-advance_cursor gv path a = ground arith

files-advance_cursor : (gv : ℕ) (a : Agent) → (advance_cursor gv a).files ≡ a.files
unfolding advance_cursor
files-advance_cursor gv a = ground arith

-- Whatever events arrive and whatever the master answers, the cursor from which the stream is resumed
-- never goes back.
pub cursor_monotone :
    (vault : Parts) (xs : List Arrival) (a : Agent)
    → get_cursor a.cache ≤ get_cursor (apply_events vault xs a).cache
unfolding apply_events
cursor_monotone vault [] a = omega arith
cursor_monotone vault (x ∷ xs) a = omega (
  arith,
  cursor-apply_event x vault a,
  cursor_monotone vault xs (apply_event x.works x.now vault x.read x.event a),
)

-- If a changed page cannot be read and the next event is of another kind, no file and no cached version
-- is updated, and the cursor has reached that next event, from which the stream is resumed.
pub failed_read_is_passed :
    (x y : Arrival) (vault : Parts) (a : Agent) (path k : Text) (e : ClientError)
    → x.event.event_type ≡ some (codes "PageChanged")
    → x.event.path ≡ some path
    → x.read path ≡ err e
    → (y.event.event_type == some (codes "PageChanged")) ≡ false
    → let b = apply_events vault (x ∷ y ∷ []) a in
      (b.files ≡ a.files)
      × (get_version k b.cache ≡ get_version k a.cache)
      × (get_cursor b.cache ≡ max y.event.global_version (get_cursor a.cache))
unfolding apply_events apply_event
failed_read_is_passed x y vault a [] k e kind at failed other =
    rw (kind, at, other)
      (
        files-advance_cursor y.event.global_version a,
        version-advance_cursor y.event.global_version k a,
        cursor-advance_cursor y.event.global_version a,
      )
failed_read_is_passed x y vault a (c ∷ s) k e kind at failed other =
    rw (kind, at, failed, other)
      (
        files-advance_cursor y.event.global_version a,
        version-advance_cursor y.event.global_version k a,
        cursor-advance_cursor y.event.global_version a,
      )
