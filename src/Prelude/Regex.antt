-- ===== src/Prelude/Regex.antt =====
-- The part of Python's `re` that the program's patterns use. Repetition is of one class of characters;
-- a state is the character before the position and the text after it.
use vaultmcp.Prelude.{ℕ, ◌-◌}
use vaultmcp.Prelude.{Bool, true, false, not, ◌&&◌, ◌||◌, Option, none, some, List, [], ◌∷◌, ◌++◌}
use vaultmcp.Prelude.{leb, if◌then◌else◌}
use vaultmcp.Prelude.{◌==◌, nat_Eq, list_Eq, option_Eq}
use vaultmcp.Prelude.{any}
use vaultmcp.Prelude.{Text}

-- What Python reads from the Unicode database: `\w` and `\d` beyond ASCII.
pub record Unicode : Type 0 where
  pub word : ℕ → Bool
  pub digit : ℕ → Bool

abbrev pub State : Type 0
State = Option ℕ × Text

pub data Regex : Type 0 where
  empty : Regex
  boundary : Regex
  -- at least so many characters of a class, and at most so many if there is a limit
  run : (ℕ → Bool) → ℕ → Option ℕ → Regex
  seq : Regex → Regex → Regex
  alt : Regex → Regex → Regex

abbrev pub between : ℕ → ℕ → ℕ → Bool
between lo hi c = leb lo c && leb c hi

abbrev pub is_upper : ℕ → Bool
is_upper = between b'A' b'Z'

abbrev pub is_lower : ℕ → Bool
is_lower = between b'a' b'z'

abbrev pub is_digit : ℕ → Bool
is_digit = between b'0' b'9'

-- `[A-Za-z0-9_]`
abbrev pub is_ident : ℕ → Bool
is_ident c = is_upper c || is_lower c || is_digit c || c == b'_'

abbrev pub one_of : Text → ℕ → Bool
one_of cs c = any (λ d. d == c) cs

abbrev pub flat_map : (State → List State) → List State → List State
flat_map f [] = []
flat_map f (s ∷ ss) = f s ++ flat_map f ss

-- A literal text.
unfoldable pub lit : Text → Regex
lit [] = empty
lit (c ∷ s) = seq (run (λ d. d == c) 1 (some 1)) (lit s)

abbrev pub one : (ℕ → Bool) → Regex
one p = run p 1 (some 1)

-- A decrement of the limit: `none` is no limit.
abbrev spend : Option ℕ → Option ℕ
spend none = none
spend (some n) = some (n - 1)

abbrev spent : Option ℕ → Bool
spent none = false
spent (some n) = n == 0

unfoldable pub runs : (ℕ → Bool) → ℕ → Option ℕ → Option ℕ → Text → List State
runs p lo hi before [] = if lo == 0 then (before, []) ∷ [] else []
runs p lo hi before (c ∷ s) =
    let here = if lo == 0 then (before, c ∷ s) ∷ [] else [] in
    let more = runs p (lo - 1) (spend hi) (some c) s in
    if p c && not (spent hi) then here ++ more else here

module _ (u : Unicode) where
  open u use {word}

  abbrev pub is_word : ℕ → Bool
  is_word c = is_ident c || (leb 128 c && word c)

  abbrev word_before : Option ℕ → Bool
  word_before none = false
  word_before (some c) = is_word c

  abbrev word_after : Text → Bool
  word_after [] = false
  word_after (c ∷ s) = is_word c

  abbrev differ : Bool → Bool → Bool
  differ true b = not b
  differ false b = b

  -- Where a match that begins at the state may end.
  unfoldable pub ends : Regex → State → List State
  unfolding runs
  ends empty st = st ∷ []
  ends boundary (before, s) =
      if differ (word_before before) (word_after s) then (before, s) ∷ [] else []
  ends (run p lo hi) (before, s) = runs p lo hi before s
  ends (seq r q) st = flat_map (ends q) (ends r st)
  ends (alt r q) st = ends r st ++ ends q st

  abbrev is_empty : List State → Bool
  is_empty [] = true
  is_empty (s ∷ ss) = false

  unfoldable pub matches_at : Regex → State → Bool
  unfolding ends
  matches_at r st = not (is_empty (ends r st))

  -- `pattern.search(text)`: a match at some position.
  unfoldable pub search_from : Regex → Option ℕ → Text → Bool
  unfolding ends
  search_from r before [] = not (is_empty (ends r (before, [])))
  search_from r before (c ∷ s) = not (is_empty (ends r (before, c ∷ s))) || search_from r (some c) s

  unfoldable pub regex_search : Regex → Text → Bool
  unfolding search_from
  regex_search r s = search_from r none s

  abbrev at_end : State → Bool
  at_end (before, []) = true
  at_end (before, c ∷ s) = false

  -- `pattern.fullmatch(text)`
  unfoldable pub fullmatch : Regex → Text → Bool
  unfolding ends
  fullmatch r s = any at_end (ends r (none, s))
