-- ===== src/Master/Db/Like/Prefix.antt =====
-- What a `LIKE` pattern that is a text and a percent sign takes.
use vaultmcp.Prelude.{ℕ}
use vaultmcp.Prelude.{◌≡◌, refl, ◌∙◌, ◌≢◌}
use vaultmcp.Prelude.{Bool, true, false, not, ◌&&◌, ◌||◌, List, [], ◌∷◌, ◌++◌}
use vaultmcp.Prelude.{arith, if◌then◌else◌}
use vaultmcp.Prelude.{◌==◌, nat_Eq, list_Eq, option_Eq, beq_refl}
use vaultmcp.Prelude.{all}
use vaultmcp.Prelude.{Text, codes}
use vaultmcp.Master.Db.Like.{like, like_pieces, matches, Piece, star, one, exactly}

-- No percent sign and no backslash.
abbrev pub is_literal : Text → Bool
is_literal s = all (λ c. not (c == b'%') && not (c == 92)) s

-- The pattern and a text of the same length agree where the pattern has no underscore.
abbrev pub fits : Text → Text → Bool
fits [] [] = true
fits (c ∷ s) (d ∷ t) = (d == c || c == b'_') && fits s t
fits _ _ = false

fits_itself : (s : Text) → fits s s ≡ true
fits_itself [] = refl
fits_itself (c ∷ s) = rw (beq_refl c) (fits_itself s)

any_text : (s : Text) → matches (star ∷ []) s ≡ true
unfolding matches
any_text [] = refl
any_text (c ∷ s) = ground (arith, any_text s)

pieces_of :
    (c d : ℕ) (p : Text)
    → (not (c == b'%') && not (c == 92)) ≡ true
    → like_pieces (c ∷ d ∷ p) ≡ (if c == b'_' then one else exactly c) ∷ like_pieces (d ∷ p)
unfolding like_pieces
pieces_of c d p h = ground (arith, h)

step :
    (c d : ℕ) (ps : List Piece) (t : Text)
    → (d == c || c == b'_') ≡ true
    → matches ((if c == b'_' then one else exactly c) ∷ ps) (d ∷ t) ≡ matches ps t
unfolding matches
step c d ps t h = ground (arith, h)

literal_head :
    (c : ℕ) (s : Text)
    → is_literal (c ∷ s) ≡ true
    → ((not (c == b'%') && not (c == 92)) ≡ true) × (is_literal s ≡ true)
literal_head c s h = ground (arith, h)

fits_head :
    (c d : ℕ) (s t : Text)
    → fits (c ∷ s) (d ∷ t) ≡ true
    → ((d == c || c == b'_') ≡ true) × (fits s t ≡ true)
fits_head c d s t h = ground (arith, h)

percent : like_pieces (codes "%") ≡ star ∷ []
unfolding like_pieces
percent = refl

matches-fits :
    (c d : ℕ) (s t : Text)
    → is_literal (c ∷ s) ≡ true
    → fits (c ∷ s) (d ∷ t) ≡ true
    → (u : Text) → matches (like_pieces (c ∷ s ++ codes "%")) (d ∷ t ++ u) ≡ true
matches-fits c d [] [] l f u =
    rw (pieces_of c b'%' [] (literal_head c [] l).0, percent)
      (step c d (star ∷ []) u (fits_head c d [] [] f).0 ∙ any_text u)
matches-fits c d [] (x ∷ t) l f u = absurd (ground (arith, (fits_head c d [] (x ∷ t) f).1))
matches-fits c d (x ∷ s) [] l f u = absurd (ground (arith, (fits_head c d (x ∷ s) [] f).1))
matches-fits c d (x ∷ s) (y ∷ t) l f u =
    let l' = literal_head c (x ∷ s) l in
    let f' = fits_head c d (x ∷ s) (y ∷ t) f in
    rw (pieces_of c x (s ++ codes "%") l'.0) (
      step c d (like_pieces (x ∷ s ++ codes "%")) (y ∷ t ++ u) f'.0
      ∙ matches-fits x y s t l'.1 f'.1 u)

-- A `LIKE` pattern that ends in a percent sign takes every text that begins with what stands before
-- it, and an underscore in it takes any character.
pub like-fits :
    (c d : ℕ) (s t u : Text)
    → is_literal (c ∷ s) ≡ true
    → fits (c ∷ s) (d ∷ t) ≡ true
    → like (d ∷ t ++ u) (c ∷ s ++ codes "%") ≡ true
unfolding like
like-fits c d s t u l f = matches-fits c d s t l f u

pub is_literal-append :
    (s t : Text) → is_literal s ≡ true → is_literal t ≡ true → is_literal (s ++ t) ≡ true
is_literal-append [] t h k = k
is_literal-append (c ∷ s) t h k = ground (arith, is_literal-append s t)

pub fits-append :
    (s s' t t' : Text) → fits s s' ≡ true → fits t t' ≡ true → fits (s ++ t) (s' ++ t') ≡ true
fits-append [] [] t t' h k = k
fits-append [] (d ∷ s') t t' h k = cc
fits-append (c ∷ s) [] t t' h k = cc
fits-append (c ∷ s) (d ∷ s') t t' h k = ground (arith, fits-append s s' t t')

pub like-prefix :
    (p u : Text) → is_literal p ≡ true → p ≢ [] → like (p ++ u) (p ++ codes "%") ≡ true
like-prefix [] u l h = absurd (h refl)
like-prefix (c ∷ s) u l h = like-fits c c s s u l (fits_itself (c ∷ s))
