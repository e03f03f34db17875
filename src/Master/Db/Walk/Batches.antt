-- ===== src/Master/Db/Walk/Batches.antt =====
-- The batches of `iter_all_pages` put together are the pages in path order.
use vaultmcp.Prelude.{ℕ, zero, suc, ◌+◌, ◌≤◌, ◌<◌, min}
use vaultmcp.Prelude.{◌≡◌, refl, sym, ap, ◌∙◌, inl, inr}
use vaultmcp.Prelude.{true, false, ◌&&◌, Option, none, some, List, [], ◌∷◌, ◌++◌}
use vaultmcp.Prelude.{arith, ltb, Bool-cases}
use vaultmcp.Prelude.{◌==◌, nat_Eq, list_Eq, option_Eq, list_eq_iff}
use vaultmcp.Prelude.{length, take, drop, last?, select, take_all, length-take}
use vaultmcp.Prelude.{sort_by}
use vaultmcp.Prelude.{Text}
use vaultmcp.Prelude.Texts.Order.{text_le_total, text_le_trans, text_le_refl, text_le_antisym}
use vaultmcp.Master.Db.Rows.{Db, PageRow}
use vaultmcp.Master.Db.Pages.{page_key}
use vaultmcp.Master.Db.Tables.Keys.{Pairwise-where}
use vaultmcp.Master.Db.Tables.Keyset.{
  select-both, sort_by-behind, last-drop, drop-drop, take-then_drop, drop_all,
}
use vaultmcp.Master.Db.Invariant.{IsConsistent}
use vaultmcp.Master.Db.Walk.{
  path_before, path_after, in_scope, fetch_batch, next_rows, iter_all_pages, walked,
}

path_before_total : (a b : PageRow) → path_before a b ≡ false → path_before b a ≡ true
unfolding path_before
path_before_total a b h = text_le_total a.path b.path h

path_before_trans :
    (a b c : PageRow) → path_before a b ≡ true → path_before b c ≡ true → path_before a c ≡ true
unfolding path_before
path_before_trans a b c h k = text_le_trans a.path b.path c.path h k

path_after_asym : (p q : PageRow) → path_after p q ≡ true → path_after q p ≡ false
unfolding path_after
path_after_asym p q h = ground (arith, h, text_le_total q.path p.path)

path_after_irrefl : (p : PageRow) → path_after p p ≡ false
unfolding path_after
path_after_irrefl p = ground (arith, text_le_refl p.path)

abbrev Apart : PageRow → PageRow → Type 0
Apart a b = (page_key a == page_key b) ≡ false

Apart-sym : (a b : PageRow) → Apart a b → Apart b a
Apart-sym a b h = ground (arith, h, list_eq_iff a.path b.path, list_eq_iff b.path a.path)

after_if_Apart : (p q : PageRow) → path_before p q ≡ true → Apart p q → path_after p q ≡ true
unfolding path_before path_after
after_if_Apart p q h k = ground (arith, h, k, text_le_antisym p.path q.path)

fetch_first :
    (prefix : Option Text) (batch : ℕ) (db : Db)
    → fetch_batch prefix batch none db ≡ take batch (walked prefix db)
unfolding fetch_batch walked
fetch_first prefix batch db = ap (λ ps. take batch (sort_by path_before ps)) (all_of db.pages)
  where
    all_of :
        (ps : List PageRow)
        → select (λ p. in_scope prefix p && true) ps ≡ select (in_scope prefix) ps
    all_of [] = refl
    all_of (p ∷ ps) = ground (arith, all_of ps)

fetch_next :
    (prefix : Option Text) (batch k : ℕ) (p : PageRow) (db : Db)
    → IsConsistent db
    → last? (take batch (drop k (walked prefix db))) ≡ some p
    → fetch_batch prefix batch (some p) db ≡ take batch (drop (k + batch) (walked prefix db))
unfolding fetch_batch walked
fetch_next prefix batch k p db c e =
    let seen = select (in_scope prefix) db.pages in
    ap (λ ps. take batch (sort_by path_before ps))
      (select-both path_after path_after_asym path_after_irrefl _ (in_scope prefix) p db.pages
        (λ q. refl))
    ∙ ap (take batch) (
        sort_by-behind path_after path_after_asym path_after_irrefl path_before Apart Apart-sym
          path_before_total path_before_trans after_if_Apart (k + batch) seen p
          (Pairwise-where Apart (in_scope prefix) db.pages c.paths)
          (last-drop k batch (walked prefix db) p e))

-- What one round makes of the rows that are left.
round :
    (batch : ℕ) (left rows rest : List PageRow)
    → 1 ≤ batch
    → rows ≡ take batch left
    → ((p : PageRow) → last? rows ≡ some p → rest ≡ drop batch left)
    → next_rows batch rows rest ≡ left
unfolding next_rows
round batch left [] rest b e h = empty_take batch left b e
  where
    empty_take : (n : ℕ) (ps : List PageRow) → 1 ≤ n → [] ≡ take n ps → [] ≡ ps
    empty_take zero ps b e = absurd (omega arith)
    empty_take (suc n) [] b e = refl
    empty_take (suc n) (p ∷ ps) b e = cc
round batch left (r ∷ rows) rest b e h = elim (Bool-cases (ltb (length (r ∷ rows)) batch)) [
  | inl short ↦
      rw short (e ∙ take_all batch left (fits short (ap length e ∙ length-take batch left)))
  | inr full ↦ rw full (
      ap (λ ps. r ∷ rows ++ ps) (h (last_of r rows).0 (last_of r rows).1)
      ∙ ap (λ ps. ps ++ drop batch left) e
      ∙ take-then_drop batch left)
]
  where
    fits :
        ltb (length (r ∷ rows)) batch ≡ true
        → length (r ∷ rows) ≡ min batch (length left)
        → length left ≤ batch
    fits s l = ground (arith, s, l)

    last_of : (q : PageRow) (qs : List PageRow) → (p : PageRow) × (last? (q ∷ qs) ≡ some p)
    last_of q [] = (q, refl)
    last_of q (s ∷ qs) = last_of s qs

walks_from :
    (fuel k : ℕ) (prefix : Option Text) (batch : ℕ) (cursor : Option PageRow) (db : Db)
    → IsConsistent db
    → 1 ≤ batch
    → length (walked prefix db) < fuel + k
    → fetch_batch prefix batch cursor db ≡ take batch (drop k (walked prefix db))
    → iter_all_pages fuel prefix batch cursor db ≡ drop k (walked prefix db)
unfolding iter_all_pages
walks_from zero k prefix batch cursor db c b l e = sym (drop_all k (walked prefix db) (omega arith))
walks_from (suc fuel) k prefix batch cursor db c b l e =
    round batch (drop k (walked prefix db)) (fetch_batch prefix batch cursor db)
      (iter_all_pages fuel prefix batch (last? (fetch_batch prefix batch cursor db)) db) b e
      (λ p last.
        ap (λ o. iter_all_pages fuel prefix batch o db) last
        ∙ walks_from fuel (k + batch) prefix batch (some p) db c b (omega arith)
            (fetch_next prefix batch k p db c (ap last? (sym e) ∙ last))
        ∙ sym (drop-drop k batch (walked prefix db)))

-- On consistent tables, with a batch of at least one row and more rounds allowed than there are pages
-- in scope, the batches together are the pages that the prefix lets through, each once, in path order.
pub iter_all_pages-walked :
    (fuel : ℕ) (prefix : Option Text) (batch : ℕ) (db : Db)
    → IsConsistent db
    → 1 ≤ batch
    → length (walked prefix db) < fuel
    → iter_all_pages fuel prefix batch none db ≡ walked prefix db
iter_all_pages-walked fuel prefix batch db c b l =
    walks_from fuel 0 prefix batch none db c b (omega arith) (fetch_first prefix batch db)
