-- ===== src/Master/Db/Pages/Listing.antt =====
-- `list_pages`: each page of the listing goes on where the one before it ended.
use vaultmcp.Prelude.{Bool-cases, inl, inr}
use vaultmcp.Prelude.Ints.{negsuc}
use vaultmcp.Master.Db.Pages.{read_cursor, below}
use vaultmcp.Prelude.Sorting.Laws.{All-take, selected, All-last, All-sort_by}
use vaultmcp.Prelude.{ℕ}
use vaultmcp.Prelude.{◌≡◌, refl, sym, ap, ◌∙◌}
use vaultmcp.Prelude.{Bool, true, false, ◌&&◌, Option, none, some, List, ◌∷◌}
use vaultmcp.Prelude.{arith, ltb, if◌then◌else◌}
use vaultmcp.Prelude.{◌==◌, nat_Eq, list_Eq, option_Eq}
use vaultmcp.Prelude.{length, take, drop, last?, select}
use vaultmcp.Prelude.{sort_by}
use vaultmcp.Prelude.{Text}
use vaultmcp.Prelude.Ints.{ℤ, pos, print, parse_int}
use vaultmcp.Prelude.Ints.RoundTrip.{parse_int-print, print_nonempty}
use vaultmcp.Master.Db.Rows.{Db, PageRow}
use vaultmcp.Master.Db.Tables.Keyset.{select-both, sort_by-behind}
use vaultmcp.Master.Db.Tables.Keys.{Pairwise-where}
use vaultmcp.Master.Db.Invariant.{IsConsistent, DistinctStamps}
use vaultmcp.Master.Db.Pages.{
  PageFilter, page_matches, later, list_matching, list_pages, next_cursor,
}

abbrev below_page : PageRow → PageRow → Bool
below_page p q = ltb q.global_version p.global_version

below_page_asym : (p q : PageRow) → below_page p q ≡ true → below_page q p ≡ false
below_page_asym p q h = ground (arith, h)

below_page_irrefl : (p : PageRow) → below_page p p ≡ false
below_page_irrefl p = ground arith

later_total : (a b : PageRow) → later a b ≡ false → later b a ≡ true
unfolding later
later_total a b h = ground (arith, h)

later_trans : (a b c : PageRow) → later a b ≡ true → later b c ≡ true → later a c ≡ true
unfolding later
later_trans a b c h k = ground (arith, h, k)

below_if_apart : (p q : PageRow) → later p q ≡ true → DistinctStamps p q → below_page p q ≡ true
unfolding later
below_if_apart p q h k = ground (arith, h, k)

below_both :
    (start : Option ℤ) (n gv : ℕ)
    → below start n ≡ true
    → below (some (pos n)) gv ≡ (below start gv && ltb gv n)
below_both none n gv h = refl
below_both (some (pos m)) n gv h = ground (arith, h)
below_both (some (negsuc m)) n gv h = ground (arith, h)

split_test : (b x y z : Bool) → x ≡ (y && z) → (b && x) ≡ ((b && y) && z)
split_test b x y z h = ground (arith, h)

last_test : (b x : Bool) → (b && x) ≡ true → x ≡ true
last_test b x h = ground (arith, h)

starts_above :
    (f : PageFilter) (start : Option ℤ) (p : PageRow)
    → page_matches f start p ≡ true
    → below start p.global_version ≡ true
unfolding page_matches
starts_above f start p h = last_test _ (below start p.global_version) h

page_matches-cursor :
    (f : PageFilter) (start : Option ℤ) (p q : PageRow)
    → page_matches f start p ≡ true
    → page_matches f (some (pos p.global_version)) q
      ≡ (page_matches f start q && ltb q.global_version p.global_version)
unfolding page_matches
page_matches-cursor f start p q h =
    split_test _ (below (some (pos p.global_version)) q.global_version)
      (below start q.global_version) (ltb q.global_version p.global_version)
      (below_both start p.global_version q.global_version (starts_above f start p h))

last_matches :
    (db : Db) (f : PageFilter) (start : Option ℤ) (p : PageRow)
    → last? (list_matching f start db).0 ≡ some p
    → page_matches f start p ≡ true
unfolding list_matching
last_matches db f start p e =
    let P : PageRow → Type 0 = λ q. page_matches f start q ≡ true in
    let found = select (page_matches f start) db.pages in
    All-last P (take f.limit (sort_by later found)) p
      (All-take P f.limit (sort_by later found)
        (All-sort_by later P found (selected (page_matches f start) db.pages)))
      e

list_matching_continues :
    (db : Db) (f : PageFilter) (start : Option ℤ) (p : PageRow)
    → IsConsistent db
    → last? (list_matching f start db).0 ≡ some p
    → (list_matching f (some (pos p.global_version)) db).0
      ≡ take f.limit (drop f.limit (sort_by later (select (page_matches f start) db.pages)))
unfolding list_matching
list_matching_continues db f start p c e =
    let listed = select (page_matches f start) db.pages in
    ap (λ (ps : List PageRow). take f.limit (sort_by later ps))
      (select-both below_page below_page_asym below_page_irrefl
        (page_matches f (some (pos p.global_version))) (page_matches f start) p db.pages
        (λ q. page_matches-cursor f start p q (last_matches db f start p e)))
    ∙ ap (take f.limit) (
        sort_by-behind below_page below_page_asym below_page_irrefl later DistinctStamps
          (λ a b d. λ q. d (sym q)) later_total later_trans below_if_apart f.limit listed p
          (Pairwise-where DistinctStamps (page_matches f start) db.pages c.stamps) e)

cursor_of :
    (limit : ℕ) (rows : List PageRow) (cursor : Text)
    → next_cursor limit rows ≡ some cursor
    → (p : PageRow) × (last? rows ≡ some p) × (print p.global_version ≡ cursor)
unfolding next_cursor
cursor_of limit rows cursor h = go (length rows == limit) (last? rows) h
  where
    go :
        (full : Bool) (o : Option PageRow)
        → (if full then (elim o [ none ↦ none | some p ↦ some (print p.global_version) ]) else none)
          ≡ some cursor
        → (p : PageRow) × (o ≡ some p) × (print p.global_version ≡ cursor)
    go false o e = cc
    go true none e = cc
    go true (some p) e = (p, refl, ground (arith, e))

read_cursor-print : (n : ℕ) → read_cursor (some (print n)) ≡ some (some (pos n))
unfolding read_cursor
read_cursor-print n =
    let digits = print_nonempty n in
    let read : parse_int (digits.0 ∷ digits.1) ≡ some (pos n) =
      ap parse_int (sym digits.2) ∙ parse_int-print n in
    ap (λ (t : Text). read_cursor (some t)) digits.2 ∙ rw (read, read_cursor) refl

answered :
    (f : PageFilter) (db : Db) (start : Option ℤ)
    → (f.limit == 0) ≡ false
    → read_cursor f.cursor ≡ some start
    → list_pages f db ≡ some (list_matching f start db)
unfolding list_pages
answered f db start some_rows h = rw (some_rows, h) refl

limit_given :
    (f : PageFilter) (db : Db) (x : List PageRow × Option Text)
    → list_pages f db ≡ some x
    → (f.limit == 0) ≡ false
unfolding list_pages
limit_given f db x h = elim (Bool-cases (f.limit == 0)) [ inl e ↦ cc (rw e at h) | inr e ↦ e ]

value_or : {A : Type 0} → A → Option A → A
value_or a none = a
value_or a (some b) = b

-- On consistent tables: if a listing, with a cursor or without, answers with a cursor, the same listing
-- asked again with that cursor answers with the rows that come next by falling global version, up to
-- its limit: no page is left out between the two answers and none stands in both.
pub list_pages_continues :
    (db : Db) (f : PageFilter) (start : Option ℤ) (rows : List PageRow) (cursor : Text)
    → IsConsistent db
    → read_cursor f.cursor ≡ some start
    → list_pages f db ≡ some (rows, some cursor)
    → let all_rows = sort_by later (select (page_matches f start) db.pages) in
      let next_rows = take f.limit (drop f.limit all_rows) in
      (rows ≡ take f.limit all_rows)
      × (list_pages (record f { cursor = some cursor }) db
          ≡ some (next_rows, next_cursor f.limit next_rows))
unfolding list_matching value_or
list_pages_continues db f start rows cursor c from h =
    let given = limit_given f db (rows, some cursor) h in
    let answer : list_matching f start db ≡ (rows, some cursor) =
      ap (value_or (rows, some cursor)) (sym (answered f db start given from) ∙ h) in
    let ending =
      cursor_of f.limit (list_matching f start db).0 cursor
        (ap (λ (x : List PageRow × Option Text). x.1) answer) in
    let g = record f { cursor = some cursor } in
    let gv = ending.0.global_version in
    let read = ap (λ (t : Text). read_cursor (some t)) (sym ending.2) ∙ read_cursor-print gv in
    (
      ap (λ (x : List PageRow × Option Text). x.0) (sym answer),
      answered g db (some (pos gv)) given read
          ∙ ap (λ (r : List PageRow). some (r, next_cursor f.limit r))
              (list_matching_continues db f start ending.0 c ending.1),
    )
