-- ===== src/Wire/Lines.antt =====
-- How `splitlines` and the blocks of src/vaultmcp/agent/client.py take a text of one line.
use vaultmcp.Prelude.{ℕ}
use vaultmcp.Prelude.{◌≡◌, refl, sym, ap, ◌∙◌, inl, inr}
use vaultmcp.Prelude.{Bool, true, false, not, List, [], ◌∷◌, ◌++◌}
use vaultmcp.Prelude.{arith, Bool-cases}
use vaultmcp.Prelude.{◌==◌, nat_Eq, list_Eq, option_Eq, nat_eq_iff}
use vaultmcp.Prelude.{all}
use vaultmcp.Prelude.{Text}
use mathlib.Core.List.{append_assoc, append-nil}
use vaultmcp.Prelude.Texts.{is_line_end, lines_with}
use vaultmcp.Agent.Client.{drain, onto_first}

-- A text within one line.
abbrev pub is_line : Text → Bool
is_line t = all (λ c. not (is_line_end c)) t

newline_ends : is_line_end 10 ≡ true
unfolding is_line_end
newline_ends = refl

return_ends : is_line_end 13 ≡ true
unfolding is_line_end
return_ends = refl

apart_from : (c e : ℕ) → is_line_end e ≡ true → not (is_line_end c) ≡ true → (c == e) ≡ false
apart_from c e h k = elim (Bool-cases (c == e)) [
  | inr n ↦ n
  | inl q ↦ absurd (ground (arith, h, k, nat_eq_iff c e, q))
]

lines_step :
    (part : Text) (c d : ℕ) (s : Text)
    → not (is_line_end c) ≡ true
    → lines_with part (c ∷ d ∷ s) ≡ lines_with (part ++ c ∷ []) (d ∷ s)
unfolding lines_with
lines_step part c d s h = ground (arith, h, apart_from c 13 return_ends h)

-- A line that is followed by another.
pub lines_first :
    (part t : Text) (d : ℕ) (s : Text)
    → is_line t ≡ true
    → lines_with part (t ++ 10 ∷ d ∷ s) ≡ (part ++ t) ∷ lines_with [] (d ∷ s)
unfolding lines_with is_line_end
lines_first part [] d s h = ap (λ x. x ∷ lines_with [] (d ∷ s)) (sym (append-nil part))
lines_first part (c ∷ []) d s h = lines_step part c 10 (d ∷ s) (ground (arith, h))
lines_first part (c ∷ e ∷ t) d s h =
    lines_step part c e (t ++ 10 ∷ d ∷ s) (ground (arith, h))
    ∙ lines_first (part ++ c ∷ []) (e ∷ t) d s (ground (arith, h))
    ∙ ap (λ x. x ∷ lines_with [] (d ∷ s)) (append_assoc part (c ∷ []) (e ∷ t))

-- The last line, which no line end follows.
pub lines_last :
    (part : Text) (c : ℕ) (t : Text)
    → is_line (c ∷ t) ≡ true
    → lines_with part (c ∷ t) ≡ (part ++ c ∷ t) ∷ []
unfolding lines_with
lines_last part c [] h = ground (arith, h)
lines_last part c (d ∷ t) h =
    lines_step part c d t (ground (arith, h))
    ∙ lines_last (part ++ c ∷ []) d t (ground (arith, h))
    ∙ ap (λ x. x ∷ []) (append_assoc part (c ∷ []) (d ∷ t))

drain_step :
    (c : ℕ) (s : Text) → not (is_line_end c) ≡ true → drain (c ∷ s) ≡ onto_first c (drain s)
unfolding drain
drain_step c [] h = refl
drain_step c (d ∷ s) h = ground (arith, apart_from c 10 newline_ends h)

abbrev pub opened : Text → List Text → Text → List Text × Text
opened b bs rest = (b ∷ bs, rest)

-- A line goes in front of the first block behind it.
pub drain_line :
    (t s b : Text) (bs : List Text) (rest : Text)
    → is_line t ≡ true
    → drain s ≡ (b ∷ bs, rest)
    → drain (t ++ s) ≡ ((t ++ b) ∷ bs, rest)
drain_line [] s b bs rest h q = q
drain_line (c ∷ t) s b bs rest h q =
    drain_step c (t ++ s) (ground (arith, h))
    ∙ ap (onto_first c) (drain_line t s b bs rest (ground (arith, h)) q)
