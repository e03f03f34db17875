-- ===== src/Prelude/Texts/Stripping.antt =====
-- Stripping a text that has no white space.
use mathlib.Core.Path.{◌≡◌, refl}
use mathlib.Core.Bool.{Bool, true, not}
use mathlib.Core.List.{[], ◌∷◌, reverse, reverse_aux, reverse-reverse}
use native.Mathlib.Omega.{arith}
use vaultmcp.Prelude.Lists.{all}
use vaultmcp.Prelude.Texts.{Text, is_space, lstrip, rstrip, strip}

abbrev pub is_solid : Text → Bool
is_solid t = all (λ c. not (is_space c)) t

pub lstrip_solid : (t : Text) → is_solid t ≡ true → lstrip t ≡ t
unfolding lstrip
lstrip_solid [] h = refl
lstrip_solid (c ∷ t) h = ground (arith, h)

solid-reverse_aux :
    (t acc : Text) → is_solid t ≡ true → is_solid acc ≡ true → is_solid (reverse_aux t acc) ≡ true
solid-reverse_aux [] acc h k = k
solid-reverse_aux (c ∷ t) acc h k =
    let both : (not (is_space c) ≡ true) × (is_solid t ≡ true) = ground (arith, h) in
    solid-reverse_aux t (c ∷ acc) both.1 (rw both.0 k)

pub strip_solid : (t : Text) → is_solid t ≡ true → strip t ≡ t
unfolding strip rstrip
strip_solid t h =
    rw (lstrip_solid t h, lstrip_solid (reverse t) (solid-reverse_aux t [] h refl))
      (reverse-reverse t)
