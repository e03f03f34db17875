-- ===== src/Prelude/Texts/Order.antt =====
-- `text_le`, by which texts are sorted, is a total order.
use mathlib.Core.Path.{◌≡◌, refl}
use mathlib.Core.Bool.{true, false}
use mathlib.Core.List.{[], ◌∷◌}
use native.Mathlib.Omega.{arith}
use vaultmcp.Prelude.Tests.{◌==◌, nat_Eq, list_Eq}
use vaultmcp.Prelude.Texts.{Text, text_le}

pub text_le_total : (a b : Text) → text_le a b ≡ false → text_le b a ≡ true
text_le_total [] b h = cc
text_le_total (x ∷ a) [] h = refl
text_le_total (x ∷ a) (y ∷ b) h = ground (arith, text_le_total a b)

pub text_le_trans : (a b c : Text) → text_le a b ≡ true → text_le b c ≡ true → text_le a c ≡ true
text_le_trans [] b c h k = refl
text_le_trans (x ∷ a) [] c h k = cc
text_le_trans (x ∷ a) (y ∷ b) [] h k = cc
text_le_trans (x ∷ a) (y ∷ b) (z ∷ c) h k = ground (arith, text_le_trans a b c)

pub text_le_refl : (a : Text) → text_le a a ≡ true
text_le_refl [] = refl
text_le_refl (x ∷ a) = ground (arith, text_le_refl a)

-- Of two texts each of which may stand before the other, both are the same.
pub text_le_antisym : (a b : Text) → text_le a b ≡ true → text_le b a ≡ true → (a == b) ≡ true
text_le_antisym [] [] h k = refl
text_le_antisym [] (y ∷ b) h k = cc
text_le_antisym (x ∷ a) [] h k = cc
text_le_antisym (x ∷ a) (y ∷ b) h k = ground (arith, text_le_antisym a b)
