-- ===== src/Master/Db/Ranked/Filters.antt =====
-- The rows that the searches answer with pass the filters and are within the limit.
use vaultmcp.Prelude.{ℕ, ◌≤◌}
use vaultmcp.Prelude.{◌≡◌, refl, inl, inr}
use vaultmcp.Prelude.{true, false, not, Option, none, some, List, [], ◌∷◌}
use vaultmcp.Prelude.{map, arith, Option-cases}
use vaultmcp.Prelude.{◌==◌, nat_Eq, list_Eq, option_Eq}
use vaultmcp.Prelude.{length, take, select, All, length-take}
use vaultmcp.Prelude.{sort_by}
use vaultmcp.Prelude.{Text}
use vaultmcp.Prelude.Sorting.Laws.{All-take, selected, All-sort_by}
use vaultmcp.Master.Db.Tables.Keys.{All-append, All-mono}
use vaultmcp.Master.Db.Rows.{Db, PageRow, EmbeddingRow}
use vaultmcp.Master.Db.Tables.{lookup, key-lookup}
use vaultmcp.Master.Db.Pages.{page_key}
use vaultmcp.Master.Db.Ranked.{
  Ranker, Hit, passes, hit_of, hits, ranked_before, search_pages, Near, near_of, joined_near,
  nearer, as_hit, search_pages_semantic, neighbors_of,
}
use vaultmcp.Master.Db.Jobs.{embedding_key}

module _ {ℓ} {A : Type ℓ} where
  All-map {κ} :
      {B : Type κ} (f : A → B) (P : B → Type 0) (xs : List A)
      → All (λ x. P (f x)) xs
      → All P (map f xs)
  All-map f P [] h = tt
  All-map f P (x ∷ xs) h = (h.0, All-map f P xs h.1)

  length-map {κ} : {B : Type κ} (f : A → B) (xs : List A) → length (map f xs) ≡ length xs
  length-map f [] = refl
  length-map f (x ∷ xs) = omega (arith, length-map f xs)

module _ (ranker : Ranker) where
  -- The rows are at most `n`, and each page satisfies the predicate.
  abbrev pub Within : ℕ → (PageRow → Type 0) → List (Hit ranker) → Type 0
  Within n P found = All (λ h. P h.page) found × (length found ≤ n)

  hits-All :
      (P : PageRow → Type 0) (query : Text) (ps : List PageRow)
      → All P ps
      → All (λ h. P h.page) (hits ranker query ps)
  unfolding hits
  hits-All P query [] h = tt
  hits-All P query (p ∷ ps) h =
      All-append (λ x. P x.page) (hit_of ranker query p) (hits ranker query ps)
        (one (ranker.text_rank query p)) (hits-All P query ps h.1)
    where
      one :
          (o : Option ranker.Score)
          → All {A = Hit ranker}
              (λ x. P x.page)
              (elim o [
                | none ↦ []
                | some score ↦
                    record { page = p; score = score; snippet = ranker.headline query p } ∷ []
              ])
      one none = tt
      one (some s) = (h.0, tt)

  near-All :
      (P : PageRow → Type 0) (vector : Text) (pages : List PageRow) (es : List EmbeddingRow)
      → All (λ e. (p : PageRow) → lookup page_key e.path pages ≡ some p → P p) es
      → All (λ n. P n.page) (joined_near ranker vector pages es)
  unfolding joined_near
  near-All P vector pages [] h = tt
  near-All P vector pages (e ∷ es) h =
      All-append (λ n. P n.page) (near_of ranker vector e (lookup page_key e.path pages))
        (joined_near ranker vector pages es) (one (lookup page_key e.path pages) h.0)
        (near-All P vector pages es h.1)
    where
      one :
          (o : Option PageRow)
          → ((p : PageRow) → o ≡ some p → P p)
          → All (λ n. P n.page) (near_of ranker vector e o)
      one none k = tt
      one (some p) k = (k p refl, tt)

  sorted_cut :
      (P : PageRow → Type 0) (n : ℕ) (found : List (Near ranker))
      → All (λ x. P x.page) found
      → Within n P (map (as_hit ranker) (take n (sort_by (nearer ranker) found)))
  sorted_cut P n found h =
      let cut = take n (sort_by (nearer ranker) found) in
      (
        All-map (as_hit ranker) (λ x. P x.page) cut
            (All-take (λ x. P x.page) n (sort_by (nearer ranker) found)
              (All-sort_by (nearer ranker) (λ x. P x.page) found h)),
        omega
            (arith, length-map (as_hit ranker) cut, length-take n (sort_by (nearer ranker) found)),
      )

  search_pages-Within :
      (query : Text) (prefix type_filter : Option Text) (limit : ℕ) (db : Db)
      → Within limit
          (λ p. passes ranker prefix type_filter p ≡ true)
          (search_pages ranker query prefix type_filter limit db)
  unfolding search_pages
  search_pages-Within query prefix type_filter limit db =
      let P : PageRow → Type 0 = λ p. passes ranker prefix type_filter p ≡ true in
      let found = hits ranker query (select (passes ranker prefix type_filter) db.pages) in
      (
        All-take (λ h. P h.page) limit (sort_by (ranked_before ranker) found)
            (All-sort_by (ranked_before ranker) (λ h. P h.page) found
              (hits-All P query (select (passes ranker prefix type_filter) db.pages)
                (selected (passes ranker prefix type_filter) db.pages))),
        omega (arith, length-take limit (sort_by (ranked_before ranker) found)),
      )

  semantic-Within :
      (vector : Text) (prefix type_filter : Option Text) (limit : ℕ) (db : Db)
      → Within limit
          (λ p. passes ranker prefix type_filter p ≡ true)
          (search_pages_semantic ranker vector prefix type_filter limit db)
  unfolding search_pages_semantic
  semantic-Within vector prefix type_filter limit db =
      sorted_cut (λ p. passes ranker prefix type_filter p ≡ true) limit _
        (selected (λ n. passes ranker prefix type_filter n.page)
          (joined_near ranker vector db.pages db.embeddings))

  neighbors-Within :
      (path : Text) (limit : ℕ) (db : Db)
      → Within limit (λ p. (p.path == path) ≡ false) (neighbors_of ranker path limit db)
  unfolding neighbors_of
  neighbors-Within path limit db =
      let others = select (λ (e : EmbeddingRow). not (e.path == path)) db.embeddings in
      elim (Option-cases (lookup embedding_key path db.embeddings)) [
        | inl q ↦ rw (q, neighbors_of) (tt, omega arith)
        | inr (base, q) ↦
            rw (q, neighbors_of)
              (sorted_cut (λ p. (p.path == path) ≡ false) limit
                (joined_near ranker base.embedding db.pages others)
                (near-All (λ p. (p.path == path) ≡ false) base.embedding db.pages others
                  (All-mono (λ (e : EmbeddingRow). not (e.path == path) ≡ true)
                    (λ (e : EmbeddingRow).
                      (p : PageRow)
                      → lookup page_key e.path db.pages ≡ some p
                      → (p.path == path) ≡ false)
                    others
                    (λ e n p found. ground (arith, n, key-lookup page_key e.path db.pages p found))
                    (selected (λ (e : EmbeddingRow). not (e.path == path)) db.embeddings))))
      ]

-- Whatever the rankers are: full-text and semantic search answer with at most `limit` rows, all of pages
-- that pass the prefix and the type filter, and the neighbours of a page are at most `limit` rows and
-- never the page itself.
pub search-Within :
    (ranker : Ranker) (query vector path : Text) (prefix type_filter : Option Text) (limit : ℕ)
    (db : Db)
    → Within ranker limit
        (λ p. passes ranker prefix type_filter p ≡ true)
        (search_pages ranker query prefix type_filter limit db)
      × Within ranker limit
          (λ p. passes ranker prefix type_filter p ≡ true)
          (search_pages_semantic ranker vector prefix type_filter limit db)
      × Within ranker limit (λ p. (p.path == path) ≡ false) (neighbors_of ranker path limit db)
search-Within ranker query vector path prefix type_filter limit db = (
  search_pages-Within ranker query prefix type_filter limit db,
  semantic-Within ranker vector prefix type_filter limit db,
  neighbors-Within ranker path limit db,
)
