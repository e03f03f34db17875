-- ===== src/Agent/Suppressor.antt =====
-- src/vaultmcp/agent/suppressor.py. The clock is read by the caller, in microseconds; `is_suppressed`
-- gives its answer and the table after it. The lock makes each call one step.
use vaultmcp.Prelude.{ℕ, ◌+◌}
use vaultmcp.Prelude.{◌≡◌, refl}
use vaultmcp.Prelude.{Bool, true, false, Option, none, some, List, [], ◌∷◌}
use vaultmcp.Prelude.{arith, ltb, leb, if◌then◌else◌}
use vaultmcp.Prelude.{◌==◌, nat_Eq, list_Eq, option_Eq, list_eq_iff}
use vaultmcp.Shared.FilePath.{Parts}

abbrev pub suppression_window : ℕ
suppression_window = 2000000

-- The dict `_suppressed`.
abbrev pub Suppressed : Type 0
Suppressed = List (Parts × ℕ)

unfoldable pub expiry : Parts → Suppressed → Option ℕ
expiry p [] = none
expiry p ((q, t) ∷ r) = let rest = expiry p r in if q == p then some t else rest

unfoldable pub forget : Parts → Suppressed → Suppressed
forget p [] = []
forget p ((q, t) ∷ r) = let rest = forget p r in if q == p then rest else (q, t) ∷ rest

unfoldable pub mark : ℕ → Parts → Suppressed → Suppressed
mark now p [] = (p, now + suppression_window) ∷ []
mark now p ((q, t) ∷ r) =
    let rest = mark now p r in if q == p then (p, now + suppression_window) ∷ r else (q, t) ∷ rest

abbrev pub judge : ℕ → Parts → Suppressed → Option ℕ → Bool × Suppressed
judge now p s none = (false, s)
judge now p s (some t) = if ltb t now then (false, forget p s) else (true, s)

unfoldable pub is_suppressed : ℕ → Parts → Suppressed → Bool × Suppressed
unfolding expiry forget
is_suppressed now p s = judge now p s (expiry p s)

pub expiry-mark :
    (now : ℕ) (p q : Parts) (s : Suppressed)
    → expiry q (mark now p s) ≡ (if p == q then some (now + suppression_window) else expiry q s)
unfolding expiry mark
expiry-mark now p q [] = refl
expiry-mark now p q ((r, t) ∷ s) =
    ground (arith, expiry-mark now p q s, list_eq_iff r p, list_eq_iff r q, list_eq_iff p q)

-- After a path is marked, a file event for it is skipped exactly up to the end of the window, and the
-- answer for any other path is what it was.
pub is_suppressed-mark :
    (now later : ℕ) (p q : Parts) (s : Suppressed)
    → (is_suppressed later q (mark now p s)).0
      ≡ (if p == q then leb later (now + suppression_window) else (is_suppressed later q s).0)
unfolding is_suppressed
is_suppressed-mark now later p q s = ground (arith, expiry-mark now p q s)
