-- ===== src/Prelude/Ints/RoundTrip.antt =====
-- `int(str(n))` is `n`.
use Prim.Native.Nat.{ℕ, zero, suc, ◌+◌, ◌*◌, ◌/◌, ◌%◌, ◌-◌, ◌<◌, ◌≤◌}
use mathlib.Core.Path.{◌≡◌, refl, ap, ◌∙◌, sym}
use mathlib.Core.Logic.{inl, inr}
use mathlib.Core.Bool.{Bool, true, false}
use mathlib.Core.Option.{some}
use mathlib.Core.List.{[], ◌∷◌}
use native.Mathlib.Omega.{arith}
use vaultmcp.Prelude.Tests.{ltb, ◌==◌, nat_Eq, Bool-cases, ltb→lt}
use vaultmcp.Prelude.Texts.{Text, is_space}
use vaultmcp.Prelude.Texts.Stripping.{is_solid, strip_solid}
use vaultmcp.Prelude.Ints.{pos, print, digits_onto, digits_value, is_digit, parse_int, signed, keep}

digit_is_digit : (d : ℕ) → d < 10 → is_digit (d + 48) ≡ true
digit_is_digit d h = ground (arith, h)

digit_of : (d : ℕ) → (d + 48) - 48 ≡ d
digit_of d = omega arith

digit_step :
    (acc d v : ℕ) (after : Bool) (rest : Text)
    → d < 10
    → acc * 10 + d ≡ v
    → digits_value acc after ((d + 48) ∷ rest) ≡ digits_value v true rest
unfolding digits_value
digit_step acc d v after rest h q =
    rw (digit_is_digit d h, digit_of d) (ap (λ (k : ℕ). digits_value k true rest) q)

value-digits_onto :
    (f n : ℕ) (after : Bool) (rest : Text)
    → n < f
    → digits_value 0 after (digits_onto f n rest) ≡ digits_value n true rest
unfolding digits_onto
value-digits_onto zero n after rest h = absurd (omega (arith, h))
value-digits_onto (suc f) n after rest h = elim (Bool-cases (ltb n 10)) [
  | inl e ↦ rw e (digit_step 0 n n after rest (ltb→lt n 10 e) (omega arith))
  | inr e ↦
      let ge : 10 ≤ n = ground (arith, e) in
      rw e (
        value-digits_onto f (n / 10) after ((n % 10 + 48) ∷ rest) (omega (arith, ge, h))
        ∙ digit_step (n / 10) (n % 10) n true rest (omega arith) (omega arith))
]

-- The digits begin with a digit.
first_digit :
    (f n : ℕ) (rest : Text)
    → n < f
    → (d : ℕ) × (s : Text) × (d < 10) × (digits_onto f n rest ≡ (d + 48) ∷ s)
unfolding digits_onto
first_digit zero n rest h = absurd (omega (arith, h))
first_digit (suc f) n rest h = elim (Bool-cases (ltb n 10)) [
  | inl e ↦ (n, rest, ltb→lt n 10 e, rw e refl)
  | inr e ↦
      let ge : 10 ≤ n = ground (arith, e) in
      let more = first_digit f (n / 10) ((n % 10 + 48) ∷ rest) (omega (arith, ge, h)) in
      (more.0, more.1, more.2, rw e more.3)
]

digit_is_solid : (d : ℕ) → d < 10 → is_space (d + 48) ≡ false
unfolding is_space
digit_is_solid d h = ground (arith, h)

solid-digits_onto :
    (f n : ℕ) (rest : Text) → is_solid rest ≡ true → is_solid (digits_onto f n rest) ≡ true
unfolding digits_onto
solid-digits_onto zero n rest h = h
solid-digits_onto (suc f) n rest h = elim (Bool-cases (ltb n 10)) [
  | inl e ↦ rw (e, digit_is_solid n (ltb→lt n 10 e)) h
  | inr e ↦
      let last : is_space (n % 10 + 48) ≡ false = digit_is_solid (n % 10) (omega arith) in
      rw e (solid-digits_onto f (n / 10) ((n % 10 + 48) ∷ rest) (rw last h))
]

signed_digit :
    (d : ℕ) (s : Text) → d < 10 → signed ((d + 48) ∷ s) ≡ keep (digits_value 0 false ((d + 48) ∷ s))
unfolding signed
signed_digit d s h =
    let minus : (d + 48 == b'-') ≡ false = ground (arith, h) in
    let plus : (d + 48 == b'+') ≡ false = ground (arith, h) in rw (minus, plus) refl

signed-print : (n : ℕ) → signed (print n) ≡ some (pos n)
unfolding print digits_value
signed-print n =
    let first = first_digit (suc n) n [] (omega arith) in
    ap signed first.3
    ∙ signed_digit first.0 first.1 first.2
    ∙ ap (λ (s : Text). keep (digits_value 0 false s)) (sym first.3)
    ∙ ap keep (value-digits_onto (suc n) n false [] (omega arith) ∙ ended n)
  where
    ended : (k : ℕ) → digits_value k true [] ≡ some k
    ended k = refl

solid-print : (n : ℕ) → is_solid (print n) ≡ true
unfolding print
solid-print n = solid-digits_onto (suc n) n [] refl

pub parse_int-print : (n : ℕ) → parse_int (print n) ≡ some (pos n)
unfolding parse_int
parse_int-print n = ap signed (strip_solid (print n) (solid-print n)) ∙ signed-print n

pub print_nonempty : (n : ℕ) → (c : ℕ) × (s : Text) × (print n ≡ c ∷ s)
unfolding print
print_nonempty n =
    let first = first_digit (suc n) n [] (omega arith) in (first.0 + 48, first.1, first.3)
