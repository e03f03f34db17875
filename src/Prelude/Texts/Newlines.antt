-- ===== src/Prelude/Texts/Newlines.antt =====
-- Reading a text again changes nothing.
use vaultmcp.Prelude.{◌≡◌, refl, Bool, true, not, [], ◌∷◌, arith}
use vaultmcp.Prelude.{◌==◌, nat_Eq, list_Eq, all, Text}
use vaultmcp.Prelude.Texts.{universal_newlines}

abbrev has_no_return : Text → Bool
has_no_return t = all (λ c. not (c == 0x0d)) t

universal_newlines-has_no_return : (t : Text) → has_no_return (universal_newlines t) ≡ true
unfolding universal_newlines
universal_newlines-has_no_return [] = refl
universal_newlines-has_no_return (c ∷ []) = ground arith
universal_newlines-has_no_return (c ∷ d ∷ s) =
    ground (arith, universal_newlines-has_no_return s, universal_newlines-has_no_return (d ∷ s))

kept_without_return : (t : Text) → has_no_return t ≡ true → universal_newlines t ≡ t
unfolding universal_newlines
kept_without_return [] h = refl
kept_without_return (c ∷ []) h = ground (arith, h)
kept_without_return (c ∷ d ∷ s) h = ground (arith, h, kept_without_return (d ∷ s))

pub universal_newlines-universal_newlines :
    (t : Text) → universal_newlines (universal_newlines t) ≡ universal_newlines t
universal_newlines-universal_newlines t =
    kept_without_return (universal_newlines t) (universal_newlines-has_no_return t)
