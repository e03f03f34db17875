-- ===== src/Master/Auth/Tokens.antt =====
-- The bearer token that a client sends is the one that the server reads.
use vaultmcp.Prelude.{ℕ}
use vaultmcp.Prelude.{◌≡◌, refl, ap, ◌∙◌}
use vaultmcp.Prelude.{true, none, some, [], ◌∷◌, ◌++◌}
use vaultmcp.Prelude.{nat_Eq, list_Eq, option_Eq}
use vaultmcp.Prelude.{Text, codes, lstrip, strip}
use vaultmcp.Prelude.Texts.Stripping.{is_solid, lstrip_solid, strip_solid}
use vaultmcp.Master.Auth.{nonempty, parse_bearer, parse_scheme, take_word}

lstrip_gap : (t : Text) → is_solid t ≡ true → lstrip (b' ' ∷ t) ≡ t
unfolding lstrip
lstrip_gap t h = lstrip_solid t h

scheme_of :
    (u rest : Text)
    → lstrip rest ≡ u
    → parse_scheme (codes "Bearer", rest)
      ≡ (elim u [ [] ↦ none | c ∷ s ↦ nonempty (strip (c ∷ s)) ])
unfolding parse_scheme
scheme_of u rest h = ap (λ (v : Text). elim v [ [] ↦ none | c ∷ s ↦ nonempty (strip (c ∷ s)) ]) h

words_of :
    (rest : Text)
    → take_word (lstrip (codes "Bearer" ++ b' ' ∷ rest)) ≡ (codes "Bearer", b' ' ∷ rest)
unfolding take_word lstrip
words_of rest = refl

-- A header that is `Bearer`, a space and a token without white space is read as that token.
pub parse_bearer_lem :
    (c : ℕ) (t : Text)
    → is_solid (c ∷ t) ≡ true
    → parse_bearer (some (codes "Bearer" ++ b' ' ∷ c ∷ t)) ≡ some (c ∷ t)
unfolding parse_bearer
parse_bearer_lem c t h =
    ap parse_scheme (words_of (c ∷ t))
    ∙ scheme_of (c ∷ t) (b' ' ∷ c ∷ t) (lstrip_gap (c ∷ t) h)
    ∙ ap nonempty (strip_solid (c ∷ t) h)
