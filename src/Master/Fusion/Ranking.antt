-- ===== src/Master/Fusion/Ranking.antt =====
-- What reciprocal rank fusion returns.
use vaultmcp.Prelude.{ℕ, zero, suc, ◌+◌, ◌≤◌}
use vaultmcp.Prelude.{◌≡◌, refl, sym, ap, ◌∙◌, inl, inr}
use vaultmcp.Prelude.{Bool, true, false, not, ◌&&◌, ◌||◌, List, [], ◌∷◌}
use vaultmcp.Prelude.{arith, Bool-cases}
use vaultmcp.Prelude.{◌==◌, nat_Eq, list_Eq, option_Eq, list_eq_iff}
use vaultmcp.Prelude.{length, take, any, length-take}
use vaultmcp.Prelude.{place, sort_by}
use vaultmcp.Prelude.{Text}
use vaultmcp.Prelude.{subst}
use vaultmcp.Prelude.Sorting.Laws.{any-sort_by, any-place}
use vaultmcp.Master.Fusion.{
  SearchRow, Floats, Entry, put_entry, add_score, fuse_lexical, fuse_semantic, by_score,
  reciprocal_rank_fusion,
}

abbrev pub has_path : Text → SearchRow → Bool
has_path p r = r.path == p

flipped : (a b : Text) (c : Bool) → (a == b) ≡ false → c ≡ false → (b == a || c) ≡ false
flipped a b c h k = ground (arith, h, k, list_eq_iff a b, list_eq_iff b a)

neither : (a b : Bool) → (a || b) ≡ false → (a ≡ false) × (b ≡ false)
neither a b h = ground (arith, h)

module _ (floats : Floats) where
  open floats use {one_over, at_most, Float}

  abbrev pub at_path : Text → Entry floats → Bool
  at_path p e = e.row.path == p

  -- No path stands twice.
  abbrev pub DistinctPaths : List (Entry floats) → Type 0
  DistinctPaths [] = Unit
  DistinctPaths (e ∷ es) = (any (at_path e.row.path) es ≡ false) × DistinctPaths es

  any-put_entry :
      (p : Text) (e : Entry floats) (es : List (Entry floats))
      → any (at_path p) (put_entry floats e es) ≡ (e.row.path == p || any (at_path p) es)
  unfolding put_entry
  any-put_entry p e [] = refl
  any-put_entry p e (f ∷ fs) = ground (
    arith,
    any-put_entry p e fs,
    list_eq_iff f.row.path e.row.path,
    list_eq_iff f.row.path p,
    list_eq_iff e.row.path p,
  )

  any-add_score :
      (p : Text) (r : SearchRow) (s : Float) (es : List (Entry floats))
      → any (at_path p) (add_score floats r s es) ≡ (r.path == p || any (at_path p) es)
  unfolding add_score
  any-add_score p r s [] = refl
  any-add_score p r s (f ∷ fs) = ground (
    arith,
    any-add_score p r s fs,
    list_eq_iff f.row.path r.path,
    list_eq_iff f.row.path p,
    list_eq_iff r.path p,
  )

  put_entry-DistinctPaths :
      (e : Entry floats) (es : List (Entry floats))
      → DistinctPaths es
      → DistinctPaths (put_entry floats e es)
  unfolding put_entry
  put_entry-DistinctPaths e [] h = (refl, tt)
  put_entry-DistinctPaths e (f ∷ fs) h = elim (Bool-cases (f.row.path == e.row.path)) [
    | inl q ↦ rw q (
      subst (λ (p : Text). any (at_path p) fs ≡ false) ((list_eq_iff f.row.path e.row.path).0 q)
          h.0,
      h.1,
    )
    | inr q ↦ rw q (
      any-put_entry f.row.path e fs ∙ flipped f.row.path e.row.path _ q h.0,
      put_entry-DistinctPaths e fs h.1,
    )
  ]

  add_score-DistinctPaths :
      (r : SearchRow) (s : Float) (es : List (Entry floats))
      → DistinctPaths es
      → DistinctPaths (add_score floats r s es)
  unfolding add_score
  add_score-DistinctPaths r s [] h = (refl, tt)
  add_score-DistinctPaths r s (f ∷ fs) h = elim (Bool-cases (f.row.path == r.path)) [
    | inl q ↦ rw q h
    | inr q ↦ rw q (
      any-add_score f.row.path r s fs ∙ flipped f.row.path r.path _ q h.0,
      add_score-DistinctPaths r s fs h.1,
    )
  ]

  lexical-DistinctPaths :
      (k rank : ℕ) (rs : List SearchRow) (es : List (Entry floats))
      → DistinctPaths es
      → DistinctPaths (fuse_lexical floats k rank rs es)
  unfolding fuse_lexical
  lexical-DistinctPaths k rank [] es h = h
  lexical-DistinctPaths k rank (r ∷ rs) es h =
      lexical-DistinctPaths k (suc rank) rs _ (put_entry-DistinctPaths _ es h)

  semantic-DistinctPaths :
      (k rank : ℕ) (rs : List SearchRow) (es : List (Entry floats))
      → DistinctPaths es
      → DistinctPaths (fuse_semantic floats k rank rs es)
  unfolding fuse_semantic
  semantic-DistinctPaths k rank [] es h = h
  semantic-DistinctPaths k rank (r ∷ rs) es h =
      semantic-DistinctPaths k (suc rank) rs _ (add_score-DistinctPaths r _ es h)

  any-lexical :
      (p : Text) (k rank : ℕ) (rs : List SearchRow) (es : List (Entry floats))
      → any (at_path p) (fuse_lexical floats k rank rs es)
        ≡ (any (has_path p) rs || any (at_path p) es)
  unfolding fuse_lexical
  any-lexical p k rank [] es = refl
  any-lexical p k rank (r ∷ rs) es = ground (
    arith,
    any-lexical p k (suc rank) rs
        (put_entry floats (record { row = r; score = one_over (k + rank) }) es),
    any-put_entry p (record { row = r; score = one_over (k + rank) }) es,
  )

  any-semantic :
      (p : Text) (k rank : ℕ) (rs : List SearchRow) (es : List (Entry floats))
      → any (at_path p) (fuse_semantic floats k rank rs es)
        ≡ (any (has_path p) rs || any (at_path p) es)
  unfolding fuse_semantic
  any-semantic p k rank [] es = refl
  any-semantic p k rank (r ∷ rs) es = ground (
    arith,
    any-semantic p k (suc rank) rs (add_score floats r (one_over (k + rank)) es),
    any-add_score p r (one_over (k + rank)) es,
  )

  module _ (before : Entry floats → Entry floats → Bool) where
    place-DistinctPaths :
        (e : Entry floats) (es : List (Entry floats))
        → any (at_path e.row.path) es ≡ false
        → DistinctPaths es
        → DistinctPaths (place before e es)
    unfolding place
    place-DistinctPaths e [] h k = (refl, tt)
    place-DistinctPaths e (f ∷ fs) h k = elim (Bool-cases (before e f)) [
      | inl q ↦ rw q (h, k)
      | inr q ↦ rw q (
        any-place (at_path f.row.path) before e fs
            ∙ flipped f.row.path e.row.path _ (neither (f.row.path == e.row.path) _ h).0 k.0,
        place-DistinctPaths e fs (neither (f.row.path == e.row.path) _ h).1 k.1,
      )
    ]

    sort_by-DistinctPaths :
        (es : List (Entry floats)) → DistinctPaths es → DistinctPaths (sort_by before es)
    unfolding sort_by
    sort_by-DistinctPaths [] h = tt
    sort_by-DistinctPaths (e ∷ es) h =
        place-DistinctPaths e (sort_by before es) (any-sort_by (at_path e.row.path) before es ∙ h.0)
          (sort_by-DistinctPaths es h.1)

  none-take :
      (n : ℕ) (p : Text) (es : List (Entry floats))
      → any (at_path p) es ≡ false
      → any (at_path p) (take n es) ≡ false
  none-take zero p es h = refl
  none-take (suc n) p [] h = refl
  none-take (suc n) p (e ∷ es) h = ground (arith, h, none-take n p es)

  take-DistinctPaths :
      (n : ℕ) (es : List (Entry floats)) → DistinctPaths es → DistinctPaths (take n es)
  take-DistinctPaths zero es h = tt
  take-DistinctPaths (suc n) [] h = tt
  take-DistinctPaths (suc n) (e ∷ es) h =
      (none-take n e.row.path es h.0, take-DistinctPaths n es h.1)

  any-take :
      (n : ℕ) (p : Text) (es : List (Entry floats))
      → any (at_path p) (take n es) ≡ true
      → any (at_path p) es ≡ true
  any-take zero p es h = cc
  any-take (suc n) p [] h = cc
  any-take (suc n) p (e ∷ es) h = ground (arith, h, any-take n p es)

  no_row :
      (found sem lex : Bool)
      → (found ≡ true → (sem || (lex || false)) ≡ true)
      → (found && not (lex || sem)) ≡ false
  no_row found sem lex h = ground (arith, h)

  -- The fused rows are at most `limit`, name each path once, and no path that neither search found.
  pub reciprocal_rank_fusion_lem :
      (lex_rows sem_rows : List SearchRow) (k limit : ℕ) (p : Text)
      → (length (reciprocal_rank_fusion floats lex_rows sem_rows k limit) ≤ limit)
        × DistinctPaths (reciprocal_rank_fusion floats lex_rows sem_rows k limit)
        × ((any (at_path p) (reciprocal_rank_fusion floats lex_rows sem_rows k limit)
              && not (any (has_path p) lex_rows || any (has_path p) sem_rows))
            ≡ false)
  unfolding reciprocal_rank_fusion
  reciprocal_rank_fusion_lem lex_rows sem_rows k limit p =
      let lexical = fuse_lexical floats k 1 lex_rows [] in
      let fused = fuse_semantic floats k 1 sem_rows lexical in
      let sorted = sort_by (by_score floats) fused in
      (
        omega (arith, length-take limit sorted),
        take-DistinctPaths limit sorted (
            sort_by-DistinctPaths (by_score floats) fused (
              semantic-DistinctPaths k 1 sem_rows lexical
                (lexical-DistinctPaths k 1 lex_rows [] tt))),
        no_row (any (at_path p) (take limit sorted)) (any (has_path p) sem_rows)
            (any (has_path p) lex_rows)
            λ h.
              ap (λ (b : Bool). any (has_path p) sem_rows || b)
                (sym (any-lexical p k 1 lex_rows []))
              ∙ sym (any-semantic p k 1 sem_rows lexical)
              ∙ sym (any-sort_by (at_path p) (by_score floats) fused)
              ∙ any-take limit p sorted h,
      )
