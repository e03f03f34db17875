-- ===== src/Prelude/Ints.antt =====
-- Python's integers in text: `str(n)` and `int(s)`. The digits that `int` takes are the ASCII ones.
pub mod RoundTrip
use Prim.Native.Nat.{ℕ, zero, suc, ◌+◌, ◌-◌, ◌*◌, ◌/◌, ◌%◌}
use mathlib.Core.Bool.{Bool, true, false, ◌&&◌}
use mathlib.Core.Option.{Option, none, some}
use mathlib.Core.List.{[], ◌∷◌}
use vaultmcp.Prelude.Tests.{ltb, leb, ◌==◌, nat_Eq, if◌then◌else◌}
use vaultmcp.Prelude.Texts.{Text, strip}

-- `negsuc n` is -(n + 1).
pub data ℤ : Type 0 where
  pos : ℕ → ℤ
  negsuc : ℕ → ℤ

-- The digits of `n` in front of `rest`. A number has at most as many digits as its size, so fuel
-- `suc n` suffices.
unfoldable pub digits_onto : ℕ → ℕ → Text → Text
digits_onto zero n rest = rest
digits_onto (suc f) n rest =
    let more = digits_onto f (n / 10) ((n % 10 + 48) ∷ rest) in
    if ltb n 10 then (n + 48) ∷ rest else more

unfoldable pub print : ℕ → Text
unfolding digits_onto
print n = digits_onto (suc n) n []

unfoldable pub print_int : ℤ → Text
unfolding print
print_int (pos n) = print n
print_int (negsuc n) = b'-' ∷ print (n + 1)

abbrev pub is_digit : ℕ → Bool
is_digit c = leb b'0' c && leb c b'9'

-- The digits after the first one. A `_` may stand between two digits; the flag tells that the
-- last character was a digit.
unfoldable pub digits_value : ℕ → Bool → Text → Option ℕ
digits_value acc after [] = if after then some acc else none
digits_value acc after (c ∷ s) =
    let digit = digits_value (acc * 10 + (c - 48)) true s in
    let gap = digits_value acc false s in
    if is_digit c then digit else if after && c == b'_' then gap else none

abbrev pub negate : Option ℕ → Option ℤ
negate none = none
negate (some zero) = some (pos 0)
negate (some (suc n)) = some (negsuc n)

abbrev pub keep : Option ℕ → Option ℤ
keep none = none
keep (some n) = some (pos n)

unfoldable pub signed : Text → Option ℤ
unfolding digits_value
signed [] = none
signed (c ∷ s) =
    if c == b'-'
    then negate (digits_value 0 false s)
    else if c == b'+'
    then keep (digits_value 0 false s)
    else keep (digits_value 0 false (c ∷ s))

-- `none` is a `ValueError`.
unfoldable pub parse_int : Text → Option ℤ
unfolding signed digits_value strip
parse_int s = signed (strip s)
