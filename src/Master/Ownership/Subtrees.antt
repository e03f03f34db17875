-- ===== src/Master/Ownership/Subtrees.antt =====
-- What the patterns of the ownership rules match.
use vaultmcp.Prelude.{ℕ, zero, suc, ◌<◌}
use vaultmcp.Prelude.{◌≡◌, refl, ap, ◌∙◌}
use vaultmcp.Prelude.{Bool, true, false, not, ◌&&◌, none, some, List, [], ◌∷◌, ◌++◌}
use vaultmcp.Prelude.{arith, if◌then◌else◌}
use vaultmcp.Prelude.{◌==◌, nat_Eq, list_Eq, option_Eq}
use vaultmcp.Prelude.{length, all, length-append}
use vaultmcp.Prelude.{err}
use vaultmcp.Prelude.{Text, codes, starts_with}
use vaultmcp.Master.Errors.{forbidden, human_only}
use vaultmcp.Master.Ownership.{
  Rule, Glob, star, exactly, collapse, glob_pieces, glob_run, fnmatchcase, glob_match,
  matching_rule, check_write, check_rule,
}

-- None of the characters that a pattern reads as more than themselves.
abbrev pub is_plain : Text → Bool
is_plain s = all (λ c. not (c == b'*') && not (c == b'?') && not (c == b'[')) s

abbrev plain_pieces : Text → List Glob
plain_pieces [] = star ∷ []
plain_pieces (c ∷ s) = exactly c ∷ plain_pieces s

plain_head :
    (c : ℕ) (s : Text)
    → is_plain (c ∷ s) ≡ true
    → ((c == b'*') ≡ false) × ((c == b'?') ≡ false) × ((c == b'[') ≡ false) × (is_plain s ≡ true)
plain_head c s h = ground (arith, h)

collapse-plain : (s : Text) → is_plain s ≡ true → collapse (s ++ codes "**") ≡ s ++ codes "*"
unfolding collapse
collapse-plain [] h = refl
collapse-plain (c ∷ []) h = rw (plain_head c [] h).0 refl
collapse-plain (c ∷ d ∷ s) h =
    let head = plain_head c (d ∷ s) h in
    rw (head.0) (ap (λ (r : Text). c ∷ r) (collapse-plain (d ∷ s) head.3))

pieces-plain :
    (f : ℕ) (s : Text)
    → is_plain s ≡ true
    → length s < f
    → glob_pieces (suc f) (s ++ codes "*") ≡ plain_pieces s
unfolding glob_pieces
pieces-plain zero s h le = absurd (omega (arith, le))
pieces-plain (suc f) [] h le = refl
pieces-plain (suc f) (c ∷ s) h le =
    let head = plain_head c s h in
    rw (head.0, head.1, head.2)
      (ap (λ (r : List Glob). exactly c ∷ r) (pieces-plain f s head.3 (omega (arith, le))))

run-star : (path : Text) → glob_run (star ∷ []) path ≡ true
unfolding glob_run
run-star [] = refl
run-star (c ∷ path) = ground (arith, run-star path)

run-plain : (s path : Text) → glob_run (plain_pieces s) path ≡ starts_with path s
unfolding glob_run
run-plain [] path = run-star path
run-plain (c ∷ s) [] = refl
run-plain (c ∷ s) (d ∷ path) = ground (arith, run-plain s path)

-- A pattern of plain characters that ends in two stars matches exactly the paths that begin with what
-- stands before the stars.
pub glob_match-subtree :
    (s path : Text) → is_plain s ≡ true → glob_match (s ++ codes "**") path ≡ starts_with path s
unfolding glob_match fnmatchcase
glob_match-subtree s path h =
    rw
      (
        collapse-plain s h,
        pieces-plain (length (s ++ codes "*")) s h (omega (arith, length-append s (codes "*"))),
      )
      (run-plain s path)

abbrev pub human_only_under : Text → Rule
human_only_under s = record { pattern = s ++ codes "**"; producer = none; is_human_only = true }

check_write-cons :
    (r : Rule) (rules : List Rule) (path app : Text)
    → check_write (r ∷ rules) path app ≡ (
        if glob_match r.pattern path
        then check_rule (some r) path app
        else check_write rules path app)
unfolding check_write matching_rule
check_write-cons r rules path app = go (glob_match r.pattern path)
  where
    go :
        (b : Bool)
        → check_rule (if b then some r else matching_rule rules path) path app
          ≡ (if b then check_rule (some r) path app else check_write rules path app)
    go true = refl
    go false = refl

-- With a rule in front that keeps a subtree for humans, no app may write a path in that subtree, and
-- every other path is decided by the rules that follow.
pub check_write-subtree :
    (s path app : Text) (rules : List Rule)
    → is_plain s ≡ true
    → check_write (human_only_under s ∷ rules) path app ≡ (
        if starts_with path s
        then err (forbidden (human_only path (s ++ codes "**")))
        else check_write rules path app)
check_write-subtree s path app rules h =
    check_write-cons (human_only_under s) rules path app ∙ rw (glob_match-subtree s path h) refl
