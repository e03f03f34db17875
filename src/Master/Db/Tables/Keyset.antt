-- ===== src/Master/Db/Tables/Keyset.antt =====
-- Reading a sorted table batch by batch: the rows behind the last one of a batch are those that the
-- batch left out.
use vaultmcp.Prelude.{ℕ, zero, suc, ◌+◌, ◌-◌, ◌≤◌}
use vaultmcp.Prelude.{◌≡◌, refl, sym, ap, ◌∙◌, subst, inl, inr}
use vaultmcp.Prelude.{Bool, true, false, ◌&&◌, none, some, List, [], ◌∷◌, ◌++◌}
use vaultmcp.Prelude.{arith, Bool-cases}
use vaultmcp.Prelude.{length, take, drop, last?, select, All}
use vaultmcp.Prelude.{place, sort_by}
use vaultmcp.Prelude.Sorting.Laws.{
  IsSorted, All-place, All-sort_by, sort_by-IsSorted, select-sort_by,
}
use vaultmcp.Master.Db.Tables.Keys.{Pairwise}

shift : (k n : ℕ) → suc (k + n) ≡ suc k + n
shift k n = omega arith

module _ {Row : Type 0} where
  -- A symmetric relation between all rows outlasts a sort.
  pub Pairwise-place :
      (R : Row → Row → Type 0)
      → ((a b : Row) → R a b → R b a)
      → (before : Row → Row → Bool) (x : Row) (rows : List Row) → All (R x) rows
      → Pairwise R rows
      → Pairwise R (place before x rows)
  unfolding place
  Pairwise-place R swap before x [] h k = (tt, tt)
  Pairwise-place R swap before x (y ∷ rows) h k = elim (Bool-cases (before x y)) [
    | inl e ↦ rw e (h, k)
    | inr e ↦ rw e (
      All-place before (R y) x rows (swap x y h.0) k.0,
      Pairwise-place R swap before x rows h.1 k.1,
    )
  ]

  pub Pairwise-sort_by :
      (R : Row → Row → Type 0)
      → ((a b : Row) → R a b → R b a)
      → (before : Row → Row → Bool) (rows : List Row) → Pairwise R rows
      → Pairwise R (sort_by before rows)
  unfolding sort_by
  Pairwise-sort_by R swap before [] h = tt
  Pairwise-sort_by R swap before (x ∷ rows) h =
      Pairwise-place R swap before x (sort_by before rows) (All-sort_by before (R x) rows h.0)
        (Pairwise-sort_by R swap before rows h.1)

  same_row : (x p : Row) → some x ≡ some p → x ≡ p
  same_row x p e = ground (arith, e)

  pub All-last :
      (P : Row → Type 0) (n : ℕ) (rows : List Row) (p : Row)
      → All P rows
      → last? (take n rows) ≡ some p
      → P p
  All-last P zero rows p h e = cc
  All-last P (suc n) [] p h e = cc
  All-last P (suc zero) (x ∷ xs) p h e = subst P (same_row x p e) h.0
  All-last P (suc (suc n)) (x ∷ []) p h e = subst P (same_row x p e) h.0
  All-last P (suc (suc n)) (x ∷ y ∷ ys) p h e = All-last P (suc n) (y ∷ ys) p h.1 e

  last-cons :
      (x : Row) (rows : List Row) (p : Row) → last? rows ≡ some p → last? (x ∷ rows) ≡ some p
  last-cons x [] p e = cc
  last-cons x (y ∷ rows) p e = e

  drop_nothing : (k n : ℕ) → take {A = Row} n (drop k []) ≡ []
  drop_nothing zero zero = refl
  drop_nothing zero (suc n) = refl
  drop_nothing (suc k) zero = refl
  drop_nothing (suc k) (suc n) = refl

  drop_none : (n : ℕ) → drop {A = Row} n [] ≡ []
  drop_none zero = refl
  drop_none (suc n) = refl

  pub last-drop :
      (k n : ℕ) (rows : List Row) (p : Row)
      → last? (take n (drop k rows)) ≡ some p
      → last? (take (k + n) rows) ≡ some p
  last-drop zero n rows p e = subst (λ (m : ℕ). last? (take m rows) ≡ some p) (omega arith) e
  last-drop (suc k) n [] p e = absurd (none_some (sym (ap last? (drop_nothing (suc k) n)) ∙ e))
    where
      none_some : none ≡ some p → ⊥
      none_some q = cc
  last-drop (suc k) n (x ∷ rows) p e =
      subst (λ (m : ℕ). last? (take m (x ∷ rows)) ≡ some p) (shift k n)
        (last-cons x (take (k + n) rows) p (last-drop k n rows p e))

  pub drop-drop : (k n : ℕ) (rows : List Row) → drop n (drop k rows) ≡ drop (k + n) rows
  drop-drop zero n rows = ap (λ (m : ℕ). drop m rows) (omega arith)
  drop-drop (suc k) n [] =
      drop_none n ∙ subst (λ (m : ℕ). [] ≡ drop {A = Row} m []) (shift k n) refl
  drop-drop (suc k) n (x ∷ rows) =
      subst (λ (m : ℕ). drop n (drop k rows) ≡ drop m (x ∷ rows)) (shift k n) (drop-drop k n rows)

  pub take-then_drop : (n : ℕ) (rows : List Row) → take n rows ++ drop n rows ≡ rows
  take-then_drop zero rows = refl
  take-then_drop (suc n) [] = refl
  take-then_drop (suc n) (x ∷ rows) = ap (λ ys. x ∷ ys) (take-then_drop n rows)

  pub drop_all : (n : ℕ) (rows : List Row) → length rows ≤ n → drop n rows ≡ []
  drop_all zero [] h = refl
  drop_all zero (x ∷ rows) h = absurd (omega arith)
  drop_all (suc n) [] h = refl
  drop_all (suc n) (x ∷ rows) h = drop_all n rows (omega arith)

  pub length-drop : (n : ℕ) (rows : List Row) → length (drop n rows) ≡ length rows - n
  length-drop zero rows = omega arith
  length-drop (suc n) [] = omega arith
  length-drop (suc n) (x ∷ rows) = omega (arith, length-drop n rows)

-- A strict order: `after p q` tells that `q` stands behind `p`.
module _ {Row : Type 0} (after : Row → Row → Bool)
    (asym : (p q : Row) → after p q ≡ true → after q p ≡ false)
    (irrefl : (p : Row) → after p p ≡ false) where
  abbrev pub Behind : Row → Row → Type 0
  Behind p q = after p q ≡ true

  select-Behind : (p : Row) (rows : List Row) → All (Behind p) rows → select (after p) rows ≡ rows
  select-Behind p [] h = refl
  select-Behind p (q ∷ rows) h = rw h.0 (ap (λ ys. q ∷ ys) (select-Behind p rows h.1))

  -- In rows by the strict order, those behind the last of the first `n` are the ones after these.
  pub select-last :
      (n : ℕ) (rows : List Row) (p : Row)
      → Pairwise Behind rows
      → last? (take n rows) ≡ some p
      → select (after p) rows ≡ drop n rows
  select-last zero rows p h e = cc
  select-last (suc n) [] p h e = cc
  select-last (suc zero) (x ∷ xs) p h e =
      subst (λ (r : Row). select (after r) (x ∷ xs) ≡ xs) (same_row x p e)
        (rw (irrefl x) (select-Behind x xs h.0))
  select-last (suc (suc n)) (x ∷ []) p h e =
      subst (λ (r : Row). select (after r) (x ∷ []) ≡ []) (same_row x p e) (rw (irrefl x) refl)
  select-last (suc (suc n)) (x ∷ y ∷ ys) p h e =
      rw (asym x p (All-last (Behind x) (suc n) (y ∷ ys) p h.0 e))
        (select-last (suc n) (y ∷ ys) p h.1 e)

  pub select-both :
      (t u : Row → Bool) (p : Row) (rows : List Row)
      → ((q : Row) → t q ≡ (u q && after p q))
      → select t rows ≡ select (after p) (select u rows)
  select-both t u p [] h = refl
  select-both t u p (q ∷ rows) h = ground (arith, h q, select-both t u p rows h)

  -- A sort by `before` is strict if rows that are apart stand behind each other.
  module _ (before : Row → Row → Bool) (Apart : Row → Row → Type 0)
      (swap : (a b : Row) → Apart a b → Apart b a)
      (total : (a b : Row) → before a b ≡ false → before b a ≡ true)
      (trans : (a b c : Row) → before a b ≡ true → before b c ≡ true → before a c ≡ true)
      (step : (p q : Row) → before p q ≡ true → Apart p q → after p q ≡ true) where
    All-Behind :
        (p : Row) (rows : List Row)
        → All (λ q. before p q ≡ true) rows
        → All (Apart p) rows
        → All (Behind p) rows
    All-Behind p [] h k = tt
    All-Behind p (q ∷ rows) h k = (step p q h.0 k.0, All-Behind p rows h.1 k.1)

    strictly : (rows : List Row) → IsSorted before rows → Pairwise Apart rows → Pairwise Behind rows
    strictly [] h k = tt
    strictly (p ∷ rows) h k = (All-Behind p rows h.0 k.0, strictly rows h.1 k.1)

    -- One query behind the last row of the first `n` gives what these left out.
    pub sort_by-behind :
        (n : ℕ) (rows : List Row) (p : Row)
        → Pairwise Apart rows
        → last? (take n (sort_by before rows)) ≡ some p
        → sort_by before (select (after p) rows) ≡ drop n (sort_by before rows)
    sort_by-behind n rows p a e =
        sym (select-sort_by before total trans (after p) rows)
        ∙ select-last n (sort_by before rows) p
            (strictly (sort_by before rows) (sort_by-IsSorted before total trans rows)
              (Pairwise-sort_by Apart swap before rows a))
            e
